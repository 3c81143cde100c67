-- ===== src/Migration/Sanitized.antt =====
-- On the runs of sanitizeHistoricalConfigVersions of control-plane/lib/snapshot-migration.ts.
use papi.Common.{
  suc, ◌+◌, ◌≡◌, refl, sym, ap, List, [], ◌∷◌, map, Option, none, some, Bool, true, false, not,
  ◌&&◌, ◌||◌, if◌then◌else◌, ◌==◌, length, all, Bool-cases, inl, inr, arith,
}
use papi.Common.Json.{Json}
use papi.Migration.{
  Status, valid, invalid, Version, Outcome, State, Source, reconstruct, is_forbidden, safe_snapshot,
  sanitized, sanitize_row, count_row, count_rows, sanitize_historical_config_versions, ◌>>=◌,
}

abbrev pub is_invalid : Status → Bool
is_invalid (valid status) = false
is_invalid invalid = true

-- The row is invalid, or its snapshot is of the second schema and no text of it looks like a secret's.
abbrev pub is_safe : Version → Bool
is_safe v = is_invalid v.status || (v.schema_version == 2 && not (is_forbidden v.snapshot))

safe_snapshot-unforbidden :
    (source : Source) (old new : Json)
    → safe_snapshot source old ≡ some new
    → is_forbidden new ≡ false
unfolding safe_snapshot
safe_snapshot-unforbidden source old new h = from (reconstruct source.href source.accounts old) h
  where
    from :
        (r : Option Json)
        → (r >>= λ snapshot. if is_forbidden snapshot then none else some snapshot) ≡ some new
        → is_forbidden new ≡ false
    from none k = cc
    from (some j) k = elim (Bool-cases (is_forbidden j)) [
      | inl b ↦ ground (arith, b, k)
      | inr b ↦ let is_new : j ≡ new = ground (arith, b, k) in rw (sym is_new) b
    ]

sanitized-safe :
    (source : Source) (row : Version) (r : Option Json)
    → ((j : Json) → r ≡ some j → is_forbidden j ≡ false)
    → is_safe (sanitized source row r) ≡ true
unfolding sanitized
sanitized-safe source row none h = refl
sanitized-safe source row (some j) h = ground (arith, h j refl)

sanitize_rows-safe :
    (source : Source) (rows : List Version) → all is_safe (map (sanitize_row source) rows) ≡ true
unfolding sanitize_row
sanitize_rows-safe source [] = refl
sanitize_rows-safe source (row ∷ rows) =
    rw
      (sanitized-safe source row (safe_snapshot source row.snapshot)
        (λ j. safe_snapshot-unforbidden source row.snapshot j))
      (sanitize_rows-safe source rows)

count_row-sum :
    (r : Option Json) (o : Outcome)
    → (count_row r o).reconstructed + (count_row r o).invalid_count
      ≡ suc (o.reconstructed + o.invalid_count)
unfolding count_row
count_row-sum none o = omega arith
count_row-sum (some j) o = omega arith

count_rows-sum :
    (source : Source) (rows : List Version)
    → (count_rows source rows).reconstructed + (count_rows source rows).invalid_count ≡ length rows
unfolding count_rows
count_rows-sum source [] = omega arith
count_rows-sum source (row ∷ rows) = omega (
  arith,
  count_rows-sum source rows,
  count_row-sum (safe_snapshot source row.snapshot) (count_rows source rows),
)

length-rows :
    (source : Source) (rows : List Version) → length (map (sanitize_row source) rows) ≡ length rows
length-rows source [] = refl
length-rows source (row ∷ rows) = ap suc (length-rows source rows)

-- The first run of the migration leaves as many versions as there were, each of them invalid or of
-- the second schema with a snapshot that the pattern of secrets does not match; it reports as many
-- versions as there are; and a second run is skipped and changes nothing.
pub sanitize_historical_config_versions-safe :
    (source : Source) (s : State)
    → s.done ≡ none
    → (t : State) × ((o : Outcome) × (sanitize_historical_config_versions source s ≡ (t, some o))
        × (all is_safe t.versions ≡ true)
        × (length t.versions ≡ length s.versions)
        × (o.reconstructed + o.invalid_count ≡ length s.versions)
        × (sanitize_historical_config_versions source t ≡ (t, none)))
unfolding sanitize_historical_config_versions
sanitize_historical_config_versions-safe source s fresh =
    let o = count_rows source s.versions in
    (
      record { versions = map (sanitize_row source) s.versions; done = some o },
      (
        o,
        rw fresh refl,
        sanitize_rows-safe source s.versions,
        length-rows source s.versions,
        count_rows-sum source s.versions,
        refl,
      ),
    )
