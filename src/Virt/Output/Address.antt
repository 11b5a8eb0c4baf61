-- ===== src/Virt/Output/Address.antt =====
-- The address that `parse_domifaddr` finds.
use hummingbird_k8s.Base.{
  false, true, List, [], ◌∷◌, ◌++◌, ◌≡◌, refl, ap, ◌∙◌, some, ok, arith, All, get_elem?,
}
use hummingbird_k8s.Text.{Text, lines, split_whitespace, contains_char, is_ascii_digit}
use hummingbird_k8s.Text.Numbers.{to_text, to_text-free}
use hummingbird_k8s.Virt.Ipv4.{Ipv4, IsIpv4, display_ipv4, split-append, parse_ipv4-display_ipv4}
use hummingbird_k8s.Text.Split.{contains_char-append}
use hummingbird_k8s.Virt.Output.{
  is_ipv4_row, before_slash, row_address, first_address, parse_domifaddr,
}

display_ipv4_free : (ip : Ipv4) → contains_char b'/' (display_ipv4 ip) ≡ false
unfolding display_ipv4 contains_char is_ascii_digit
display_ipv4_free ip =
    rw
      (
        contains_char-append b'/' (to_text ip.first) _,
        contains_char-append b'/' (to_text ip.second) _,
        contains_char-append b'/' (to_text ip.third) _,
        to_text-free b'/' ip.first refl,
        to_text-free b'/' ip.second refl,
        to_text-free b'/' ip.third refl,
        to_text-free b'/' ip.fourth refl,
      )
      refl

before_slash-append :
    (s prefix : Text) → contains_char b'/' s ≡ false → before_slash (s ++ b'/' ∷ prefix) ≡ s
unfolding before_slash
before_slash-append s prefix h =
    ap (λ ps. elim ps as (λ _. Text) [ [] ↦ s ++ b'/' ∷ prefix | addr ∷ rest ↦ addr ])
      (split-append b'/' s prefix h)

-- The rows before the first one with an address are skipped.
first_address-skip :
    (command : Text) (before : List Text) (ls : List Text)
    → All (λ l. is_ipv4_row l ≡ false) before
    → first_address command (before ++ ls) ≡ first_address command ls
unfolding first_address
first_address-skip command [] ls h = refl
first_address-skip command (l ∷ before) ls h = ground (arith, first_address-skip command before ls)

row_address-some :
    (command row prefix : Text) (ip : Ipv4)
    → get_elem? (split_whitespace row) 3 ≡ some (display_ipv4 ip ++ b'/' ∷ prefix)
    → IsIpv4 ip
    → row_address command row ≡ ok (some ip)
unfolding row_address
row_address-some command row prefix ip h i =
    rw
      (
        h,
        before_slash-append (display_ipv4 ip) prefix (display_ipv4_free ip),
        parse_ipv4-display_ipv4 ip i,
      )
      refl

-- The address of the first row that mentions `ipv4`, in whatever field, is found, whatever its
-- prefix length and the rows behind it, when that row's fourth field is the text of the address, a slash and a prefix.
pub parse_domifaddr-first :
    (command stdout row prefix : Text) (before later : List Text) (ip : Ipv4)
    → lines stdout ≡ before ++ row ∷ later
    → All (λ l. is_ipv4_row l ≡ false) before
    → is_ipv4_row row ≡ true
    → get_elem? (split_whitespace row) 3 ≡ some (display_ipv4 ip ++ b'/' ∷ prefix)
    → IsIpv4 ip
    → parse_domifaddr command stdout ≡ ok (some ip)
unfolding parse_domifaddr
parse_domifaddr-first command stdout row prefix before later ip e skipped is f i =
    ap (first_address command) e
    ∙ (first_address-skip command before (row ∷ later) skipped
        ∙ unfold first_address in rw is (row_address-some command row prefix ip f i))
