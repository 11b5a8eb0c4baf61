-- ===== src/Tests/Config.antt =====
-- Runs of the parser of `cluster.local.conf`, and its theorems at concrete files.
use mathlib.Core.List.{Perm}
use mathlib.Core.List.Perm
use hummingbird_k8s.Base.{
  ◌≡◌, refl, [], ◌∷◌, ◌++◌, ok, err, List, none, true, false, map, All, arith,
}
use hummingbird_k8s.Text.{Text, text, lines, contains_char}
use hummingbird_k8s.Config.Data.{
  insert, Error, Value, Warning, scalar, array, RawMap, unterminated_array, missing_required,
}
use hummingbird_k8s.Config.Tokenizer.{tokenize, tokenize_from, array_lines, close_array}
use hummingbird_k8s.Config.Tokenizer.Printer.{print_file, assigned, ArePrintable}
use hummingbird_k8s.Config.Tokenizer.Printer
use hummingbird_k8s.Config.Tokenizer.RoundTrip.{tokenize-print_file}
use hummingbird_k8s.Config.Tokenizer.Arrays.{
  IsPassed, IsWord, opening, closing_comment, tokenize_from-closing_comment,
}
use hummingbird_k8s.Config.Build.{ClusterConfig, build_config, parse_str}
use hummingbird_k8s.Config.Build.Take
use hummingbird_k8s.Config.Build
use hummingbird_k8s.Config.Build.Warnings
use hummingbird_k8s.Config.Tokenizer
use hummingbird_k8s.Config.Data
use hummingbird_k8s.Text
use hummingbird_k8s.Text.Numbers
use hummingbird_k8s.Config.Build.Warnings.{unknown_warnings, to_warning}
use hummingbird_k8s.Config.Build.Sound.{Reads, build_config-Reads}
use hummingbird_k8s.Config.Build.Usable.{IsUsable, parse_str-IsUsable}
use hummingbird_k8s.Config.Build.Ordering.{unknown_warnings-perm, IsSorted}

abbrev sample : Text
sample =
    text
      "# c\n CP_NAME=hbird-cp1 # x\nSSH_PUBKEY_FILE='/k'\n\nWORKER_NAMES=(a \"b c\"\n  # note\n d)\n"

tokenize-sample :
    tokenize sample
    ≡ ok (
        (text "CP_NAME", (2, scalar (text "hbird-cp1")))
        ∷ (text "SSH_PUBKEY_FILE", (3, scalar (text "/k")))
        ∷ (text "WORKER_NAMES", (5, array (text "a" ∷ text "b c" ∷ text "d" ∷ [])))
        ∷ [])
unfolding tokenize text lines Tokenizer.parse_line Tokenizer.is_blank_or_comment Text.trim_start
    Text.is_whitespace Text.split_once Text.strip_prefix Tokenizer.tokenize_array_body Data.insert
    Text.eq Text.is_ascii_whitespace Tokenizer.is_valid_key Tokenizer.parse_array
    Tokenizer.parse_scalar Tokenizer.strip_trailing_comment Tokenizer.tokenize_from
    Text.is_ascii_alphabetic Tokenizer.array_elements array_lines
tokenize-sample = refl

abbrev written : List (Text × Value)
written =
    (text "CP_NAME", scalar (text "c # 1"))
    ∷ (text "WORKER_NAMES", array (text "w1" ∷ text "w 2" ∷ []))
    ∷ (text "CP_NAME", scalar (text "c2"))
    ∷ []

written-ArePrintable : ArePrintable written
unfolding Tokenizer.is_valid_key text Text.contains_char Text.is_ascii_alphabetic
written-ArePrintable =
    Printer.ArePrintable.cons refl (record { no_quote = refl; no_newline = refl })
      (Printer.ArePrintable.cons refl
        (Printer.IsElements.cons
          (record { quotable = record { no_quote = refl; no_newline = refl }; no_paren = refl })
          (Printer.IsElements.cons
            (record { quotable = record { no_quote = refl; no_newline = refl }; no_paren = refl })
            Printer.IsElements.nil))
        (Printer.ArePrintable.cons refl (record { no_quote = refl; no_newline = refl })
          Printer.ArePrintable.nil))

tokenize-print_file_example : tokenize (print_file written) ≡ ok (assigned 0 written [])
tokenize-print_file_example = tokenize-print_file written written-ArePrintable

abbrev open_array : Text
open_array = text "A=1\nB=(x\n y\n"

open_array-err : tokenize open_array ≡ err (unterminated_array (text "B") 2)
unfolding tokenize text lines Tokenizer.parse_line Tokenizer.is_blank_or_comment Text.trim_start
    Text.is_whitespace Text.split_once Text.strip_prefix Tokenizer.tokenize_array_body Data.insert
    Text.eq Text.is_ascii_whitespace Tokenizer.is_valid_key Tokenizer.parse_array
    Tokenizer.parse_scalar Tokenizer.strip_trailing_comment Tokenizer.tokenize_from
    Text.is_ascii_alphabetic Tokenizer.array_elements array_lines
open_array-err = refl

-- A parenthesis inside a quoted element of an array closes the array.
abbrev open_quote : Text
open_quote = text "A=1\nB=(x\n# y\n 'b)' c)\n"

abbrev raw_sample : RawMap
raw_sample =
    (text "CP_NAME", (1, scalar (text "hbird-cp1")))
    ∷ (text "SSH_PUBKEY_FILE", (2, scalar (text "/k")))
    ∷ (text "WORKER_MEMORY", (3, scalar (text "16384")))
    ∷ (text "BOGUS", (4, scalar (text "1")))
    ∷ []

abbrev config_sample : ClusterConfig
config_sample = record {
  cp_name = text "hbird-cp1";
  ssh_pubkey_file = text "/k";
  kvm_host = none;
  image_source = text "ghcr";
  ghcr_tag = text "latest";
  enable_cloud_init = 0;
  auto_update_cp = true;
  switch_to_ghcr = true;
  cp_memory = 8192;
  cp_vcpus = 4;
  worker_memory = 16384;
  worker_vcpus = 2;
  pool_dir = text "/var/lib/libvirt/images";
  run_verify = false;
  bootc_update_schedule = none;
  bootc_update_repo_k8s = none;
  bootc_update_repo_worker = none;
  worker_names = none;
  cp_ip = none;
  pod_cidr = none;
  service_cidr = none;
  worker_ips = none;
  cp_mac = none;
  worker_macs = none;
  extra_network = none;
  extra_net_cp_mac = none;
  extra_net_cp_ip = none;
  extra_net_worker_macs = none;
  extra_net_worker_ips = none;
  warnings = record { key = text "BOGUS"; line_no = 4 } ∷ [];
}

build_config-sample : build_config raw_sample (text "f") ≡ ok config_sample
unfolding build_config text Build.take_config Take.◌>>=◌ Take.take_required_scalar Take.take
    Take.required_scalar Data.lookup Text.eq Data.remove Take.take_optional_scalar
    Take.optional_scalar Take.take_scalar_or_default Take.scalar_or_default Take.take_u32_or_default
    Take.u32_or_default Take.bool_or_default Take.bool_strict_or_default Take.mismatch
    Take.optional_array Take.pure Take.remaining Take.take_bool_or_default
    Take.take_bool_strict_or_default Take.take_optional_array Warnings.insert_sorted
    Warnings.not_after Warnings.sort_warnings unknown_warnings Numbers.digits_value
    Numbers.parse_uint
build_config-sample = refl

build_config-Reads_example : Reads raw_sample (text "f") config_sample
build_config-Reads_example =
    build_config-Reads raw_sample (text "f") config_sample build_config-sample

abbrev file_sample : Text
file_sample = text "CP_NAME=hbird-cp1\nSSH_PUBKEY_FILE=/k\nWORKER_MEMORY=16384\nBOGUS=1\n"

parse_str-sample : parse_str file_sample ≡ ok config_sample
unfolding parse_str Build.parse_with_source build_config text Build.take_config Take.◌>>=◌
    Take.take_required_scalar Take.take Take.required_scalar Data.lookup Text.eq Data.remove
    Take.take_optional_scalar Take.optional_scalar Take.take_scalar_or_default
    Take.scalar_or_default Take.take_u32_or_default Take.u32_or_default Take.bool_or_default
    Take.bool_strict_or_default Take.mismatch Take.optional_array Take.pure Take.remaining
    Take.take_bool_or_default Take.take_bool_strict_or_default Take.take_optional_array
    Warnings.insert_sorted Warnings.not_after Warnings.sort_warnings unknown_warnings
    Numbers.digits_value Numbers.parse_uint tokenize lines Tokenizer.parse_line
    Tokenizer.is_blank_or_comment Text.trim_start Text.is_whitespace Text.split_once
    Text.strip_prefix Tokenizer.tokenize_array_body Data.insert Text.is_ascii_whitespace
    Tokenizer.is_valid_key Tokenizer.parse_array Tokenizer.parse_scalar
    Tokenizer.strip_trailing_comment Tokenizer.tokenize_from Text.is_ascii_alphabetic
    Tokenizer.array_elements array_lines
parse_str-sample = refl

parse_str-IsUsable_example : IsUsable config_sample
parse_str-IsUsable_example = parse_str-IsUsable file_sample config_sample parse_str-sample

abbrev map_ba : RawMap
map_ba = (text "B", (2, scalar [])) ∷ (text "A", (1, scalar [])) ∷ []

abbrev map_ab : RawMap
map_ab = (text "A", (1, scalar [])) ∷ (text "B", (2, scalar [])) ∷ []

unknown_warnings-perm_example :
    (unknown_warnings map_ba ≡ unknown_warnings map_ab)
    × IsSorted (unknown_warnings map_ba)
    × Perm (unknown_warnings map_ba) (map to_warning map_ba)
unknown_warnings-perm_example = unknown_warnings-perm map_ba map_ab (Perm.swap _ _ _)

abbrev passed : List Text
passed = text "" ∷ text "  # b" ∷ []

passed-IsPassed : All IsPassed passed
unfolding Tokenizer.is_blank_or_comment Text.trim_start Text.is_whitespace contains_char text
passed-IsPassed =
    (record { comment = refl; no_paren = refl }, (record { comment = refl; no_paren = refl }, tt))

abbrev word : Text
word = text "hbird-w1"

word-IsWord : IsWord word
unfolding Text.is_whitespace contains_char text
word-IsWord = record {
  no_space = refl;
  no_quote = λ c s e. ground arith;
  not_empty = λ e. cc;
  no_paren = refl;
}

key-is_valid : Tokenizer.is_valid_key (text "K") ≡ true
unfolding Tokenizer.is_valid_key Text.is_ascii_alphabetic text
key-is_valid = refl

tokenize_from-closing_comment_example :
    tokenize_from 0 0
      (opening (text "K") ∷ (passed ++ closing_comment word (text " x") ∷ (text "A=1" ∷ [])))
      []
    ≡ tokenize_from 0 4
        (text "A=1" ∷ [])
        (insert (text "K") (1, array ((b'#' ∷ []) ∷ word ∷ [])) [])
tokenize_from-closing_comment_example =
    tokenize_from-closing_comment (text "K") word (text " x") 0 passed (text "A=1" ∷ []) []
      key-is_valid passed-IsPassed word-IsWord
