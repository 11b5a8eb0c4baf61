-- ===== src/Virt/Output.antt =====
-- What rust/crates/hbird-virt/src/lib.rs reads out of the output of `virsh` and `ls`.
pub mod Address
use hummingbird_k8s.Base.{
  ℕ, Bool, true, false, not, ◌&&◌, List, [], ◌∷◌, ◌++◌, Option, none, some, Result, ok, err, ◌>>=◌,
  ok_or, if◌then◌else◌, is_empty, map, get_elem?, ◌==◌,
}
use hummingbird_k8s.Text.{
  Text, text, eq, lines, trim, contains, starts_with, split, split_once, split_whitespace,
  to_ascii_lowercase,
}
use hummingbird_k8s.Virt.Data.{Error, unparseable_output}
use hummingbird_k8s.Virt.Ipv4.{Ipv4, parse_ipv4}

pub record Domain : Type 0 where
  pub name : Text

-- `.lines().map(str::trim).filter(|s| !s.is_empty())`
unfoldable pub filled : List Text → List Text
filled [] = []
filled (l ∷ ls) = let rest = filled ls in if is_empty (trim l) then rest else trim l ∷ rest

unfoldable pub entries : Text → List Text
entries stdout = filled (lines stdout)

abbrev pub to_domain : Text → Domain
to_domain s = record { name = s }

unfoldable pub parse_domain_list : Text → List Domain
parse_domain_list stdout = map to_domain (entries stdout)

unfoldable pub is_ipv4_row : Text → Bool
is_ipv4_row line = contains (text "ipv4") (to_ascii_lowercase line)

-- `addr.split('/').next().unwrap_or(cidr)`
unfoldable pub before_slash : Text → Text
before_slash cidr = elim (split b'/' cidr) [ [] ↦ cidr | addr ∷ rest ↦ addr ]

abbrev few_fields : Text
few_fields = text "ipv4 row had fewer than 4 whitespace-separated fields"

abbrev no_address : Text
no_address = text "ipv4 row's address field did not parse as IPv4"

-- The address of a row of the table.
unfoldable pub row_address : Text → Text → Result Error (Option Ipv4)
row_address command line =
    ok_or (get_elem? (split_whitespace line) 3) (unparseable_output command few_fields) >>= λ cidr.
    ok_or (parse_ipv4 (before_slash cidr)) (unparseable_output command no_address) >>= λ ip.
    ok (some ip)

-- The loop over the lines.
unfoldable pub first_address : Text → List Text → Result Error (Option Ipv4)
first_address command [] = ok none
first_address command (l ∷ ls) =
    let rest = first_address command ls in if is_ipv4_row l then row_address command l else rest

unfoldable pub parse_domifaddr : Text → Text → Result Error (Option Ipv4)
parse_domifaddr command stdout = first_address command (lines stdout)

pub record DomainInfo : Type 0 where
  pub name : Text
  pub state : Text
  pub persistent : Bool
  pub os_type : Text

-- The four variables of the loop.
pub record Rows : Type 0 where
  pub name : Option Text
  pub state : Option Text
  pub persistent : Option Bool
  pub os_type : Option Text

unfoldable pub take_row : Text → Text → Rows → Rows
take_row key value rows =
    if eq key (text "Name")
    then record rows { name = some value }
    else if eq key (text "State")
    then record rows { state = some (to_ascii_lowercase value) }
    else if eq key (text "Persistent")
    then record rows { persistent = some (eq (to_ascii_lowercase value) (text "yes")) }
    else if eq key (text "OS Type")
    then record rows { os_type = some value }
    else rows

unfoldable pub take_line : Option (Text × Text) → Rows → Rows
take_line none rows = rows
take_line (some (key, value)) rows = take_row (trim key) (trim value) rows

unfoldable pub take_lines : List Text → Rows → Rows
take_lines [] rows = rows
take_lines (l ∷ ls) rows = take_lines ls (take_line (split_once b':' l) rows)

abbrev pub no_rows : Rows
no_rows = record { name = none; state = none; persistent = none; os_type = none }

unfoldable pub to_info : Text → Rows → Result Error DomainInfo
to_info command rows =
    ok_or rows.name (unparseable_output command (text "dominfo output missing 'Name:' row"))
    >>= λ name.
        ok_or rows.state (unparseable_output command (text "dominfo output missing 'State:' row"))
        >>= λ state.
            ok_or rows.persistent
              (unparseable_output command (text "dominfo output missing 'Persistent:' row"))
            >>= λ persistent.
                ok_or rows.os_type
                  (unparseable_output command (text "dominfo output missing 'OS Type:' row"))
                >>= λ os_type. ok (record {
                  name = name;
                  state = state;
                  persistent = persistent;
                  os_type = os_type;
                })

unfoldable pub parse_dominfo : Text → Text → Result Error DomainInfo
parse_dominfo command stdout = to_info command (take_lines (lines stdout) no_rows)

unfoldable pub is_host_of : Text → Text → Bool
is_host_of name l =
    starts_with (text "<host ") l && contains (text "name='" ++ (name ++ text "'")) l

unfoldable pub find_host : Text → List Text → Option Text
find_host name [] = none
find_host name (l ∷ ls) =
    let rest = find_host name ls in if is_host_of name (trim l) then some (trim l) else rest

-- The `<host …/>` element of the name in the XML of a network.
unfoldable pub find_ip_dhcp_host_by_name : Text → Text → Option Text
find_ip_dhcp_host_by_name net_xml name = find_host name (lines net_xml)
