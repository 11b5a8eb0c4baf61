-- ===== src/Config/Build/Warnings.antt =====
-- The warnings of `build_config` in rust/crates/hbird-config/src/parser.rs: one for each key left
-- in the map, sorted by line and key. The map's order of iteration is that of the list.
use hummingbird_k8s.Base.{ℕ, Bool, ◌&&◌, ◌||◌, List, [], ◌∷◌, ltb, ◌==◌, if◌then◌else◌, map}
use hummingbird_k8s.Text.{Text, le}
use hummingbird_k8s.Config.Data.{Warning, Value, RawMap}

abbrev pub to_warning : Text × (ℕ × Value) → Warning
to_warning e = record { key = e.0; line_no = e.1.0 }

-- `a_line.cmp(b_line).then_with(|| a_key.cmp(b_key))`, as "not greater".
unfoldable pub not_after : Warning → Warning → Bool
not_after a b = ltb a.line_no b.line_no || (a.line_no == b.line_no && le a.key b.key)

unfoldable pub insert_sorted : Warning → List Warning → List Warning
insert_sorted w [] = w ∷ []
insert_sorted w (x ∷ xs) = if not_after w x then w ∷ x ∷ xs else x ∷ insert_sorted w xs

-- `sort_by`: a stable sort.
unfoldable pub sort_warnings : List Warning → List Warning
unfolding insert_sorted
sort_warnings [] = []
sort_warnings (w ∷ ws) = insert_sorted w (sort_warnings ws)

unfoldable pub unknown_warnings : RawMap → List Warning
unfolding sort_warnings
unknown_warnings raw = sort_warnings (map to_warning raw)
