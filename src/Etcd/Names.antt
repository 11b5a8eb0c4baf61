-- ===== src/Etcd/Names.antt =====
-- The pure helpers of rust/crates/hbird-cli/src/commands/etcd.rs: times, labels, names and base64.
-- The byte widths of the source hold every value: seconds are a `u64`, and the days since the epoch
-- an `i64` that is never negative, so `div_euclid` and `rem_euclid` are the division of naturals.
pub mod Labels
pub mod Dates
pub mod Lines
use hummingbird_k8s.Base.{
  ℕ, zero, suc, ◌+◌, ◌-◌, ◌*◌, ◌/◌, ◌%◌, ltb, leb, Bool, true, false, not, ◌&&◌, ◌||◌, List, [],
  ◌∷◌, ◌++◌, Option, none, some, ◌==◌, if◌then◌else◌, is_empty, length, get_elem?, all,
}
use hummingbird_k8s.Text.{
  Text, text, trim, trim_start, trim_end_matches, lines, contains, split_whitespace,
  is_ascii_alphanumeric,
}
use hummingbird_k8s.Text.Numbers.{to_text}
use hummingbird_k8s.Virt.Shell.{escape_quotes}

-- year, month, day, hour, minute, second
pub record Civil : Type 0 where
  pub year : ℕ
  pub month : ℕ
  pub day : ℕ
  pub hour : ℕ
  pub minute : ℕ
  pub second : ℕ

unfoldable pub year_of_era : ℕ → ℕ
year_of_era doe = (doe - doe / 1460 + doe / 36524 - doe / 146096) / 365

unfoldable pub day_of_year : ℕ → ℕ
unfolding year_of_era
day_of_year doe = let yoe = year_of_era doe in doe - (365 * yoe + yoe / 4 - yoe / 100)

unfoldable pub month_of : ℕ → ℕ
month_of mp = if ltb mp 10 then mp + 3 else mp - 9

unfoldable pub civil_from_epoch : ℕ → Civil
unfolding year_of_era day_of_year month_of
civil_from_epoch epoch_secs =
    let rem = epoch_secs % 86400 in
    let z = epoch_secs / 86400 + 719468 in
    let era = z / 146097 in
    let doe = z % 146097 in
    let doy = day_of_year doe in
    let mp = (5 * doy + 2) / 153 in
    let m = month_of mp in
    record {
      year = year_of_era doe + era * 400 + (if leb m 2 then 1 else 0);
      month = m;
      day = doy - (153 * mp + 2) / 5 + 1;
      hour = rem / 3600;
      minute = rem % 3600 / 60;
      second = rem % 60;
    }

-- `{n:02}` and `{n:04}`: zeros in front up to the width.
unfoldable pub zeros : ℕ → Text
zeros zero = []
zeros (suc n) = b'0' ∷ zeros n

unfoldable pub padded : ℕ → ℕ → Text
padded width n = let digits = to_text n in zeros (width - length digits) ++ digits

unfoldable pub format_utc_timestamp : ℕ → Text
format_utc_timestamp epoch_secs =
    let c = civil_from_epoch epoch_secs in
    padded 4 c.year
    ++ (padded 2 c.month
        ++ (padded 2 c.day
            ++ b'T' ∷ (padded 2 c.hour ++ (padded 2 c.minute ++ (padded 2 c.second ++ b'Z' ∷ [])))))

unfoldable pub rotation_key_name : ℕ → Text
rotation_key_name epoch_secs =
    let c = civil_from_epoch epoch_secs in
    text "key-"
    ++ (padded 4 c.year
        ++ (padded 2 c.month
            ++ (padded 2 c.day ++ (padded 2 c.hour ++ (padded 2 c.minute ++ padded 2 c.second)))))

unfoldable pub is_label_char : ℕ → Bool
is_label_char c = is_ascii_alphanumeric c || (c == b'.' || (c == b'_' || c == b'-'))

unfoldable pub map_label : Text → Text
map_label [] = []
map_label (c ∷ s) = (if is_label_char c then c else b'-') ∷ map_label s

unfoldable pub trim_start_dashes : Text → Text
trim_start_dashes [] = []
trim_start_dashes (c ∷ s) = if c == b'-' then trim_start_dashes s else c ∷ s

-- `trim_matches('-')`
unfoldable pub trim_dashes : Text → Text
trim_dashes s = trim_end_matches b'-' (trim_start_dashes s)

unfoldable pub sanitize_label : Text → Option Text
sanitize_label raw =
    let trimmed = trim_dashes (map_label raw) in if is_empty trimmed then none else some trimmed

unfoldable pub snapshot_file_name : Text → Option Text → Text
snapshot_file_name timestamp none = text "etcd-snapshot-" ++ (timestamp ++ text ".db")
snapshot_file_name timestamp (some l) =
    text "etcd-snapshot-" ++ (timestamp ++ b'-' ∷ (l ++ text ".db"))

unfoldable pub first_filled : List Text → Option Text
first_filled [] = none
first_filled (l ∷ ls) =
    let rest = first_filled ls in if is_empty (trim l) then rest else some (trim l)

unfoldable pub parse_etcd_container_id : Text → Option Text
parse_etcd_container_id stdout = first_filled (lines stdout)

unfoldable pub validate_container_id : Text → Bool
validate_container_id id = not (is_empty id) && all is_ascii_alphanumeric id

unfoldable pub is_image_char : ℕ → Bool
is_image_char c =
    is_ascii_alphanumeric c
    || (c == b'.' || (c == b'_' || (c == b'/' || (c == b':' || (c == b'-' || c == b'@')))))

unfoldable pub validate_image_ref : Text → Bool
validate_image_ref image = not (is_empty image) && all is_image_char image

abbrev pub image_of : List Text → Option Text → Option Text
image_of (repo ∷ tag ∷ more) rest = some (repo ++ b':' ∷ tag)
image_of _ rest = rest

unfoldable pub pick_image : List Text → Option Text
pick_image [] = none
pick_image (l ∷ ls) =
    let rest = pick_image ls in
    if contains (text "registry.k8s.io/etcd") l then image_of (split_whitespace l) rest else rest

unfoldable pub pick_etcd_image : Text → Option Text
pick_etcd_image images_stdout = pick_image (lines images_stdout)

-- One of the 64 characters.
unfoldable pub base64_char : ℕ → ℕ
base64_char n =
    if ltb n 26
    then b'A' + n
    else if ltb n 52
    then b'a' + (n - 26)
    else if ltb n 62
    then b'0' + (n - 52)
    else if n == 62
    then b'+'
    else b'/'

-- Three bytes as four characters; the shifts and masks are written with `/` and `%`.
unfoldable pub base64_encode : List ℕ → Text
base64_encode [] = []
base64_encode (a ∷ []) =
    let n = a * 65536 in
    base64_char (n / 262144 % 64) ∷ base64_char (n / 4096 % 64) ∷ b'=' ∷ b'=' ∷ []
base64_encode (a ∷ b ∷ []) =
    let n = a * 65536 + b * 256 in
    base64_char (n / 262144 % 64)
    ∷ base64_char (n / 4096 % 64)
    ∷ base64_char (n / 64 % 64)
    ∷ b'='
    ∷ []
base64_encode (a ∷ b ∷ c ∷ rest) =
    let n = a * 65536 + b * 256 + c in
    base64_char (n / 262144 % 64)
    ∷ base64_char (n / 4096 % 64)
    ∷ base64_char (n / 64 % 64)
    ∷ base64_char (n % 64)
    ∷ base64_encode rest

-- `shell_single_quote` of rust/crates/hbird-cli/src/cp_resolve.rs.
unfoldable pub shell_single_quote : Text → Text
shell_single_quote s = b'\'' ∷ (escape_quotes s ++ b'\'' ∷ [])

unfoldable pub is_affirmative : Text → Bool
is_affirmative answer = elim (trim answer) [ c ∷ [] ↦ c == b'y' || c == b'Y' | _ ↦ false ]
