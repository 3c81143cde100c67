-- ===== src/Operators/Lasting.antt =====
-- How long control-plane/lib/edition.ts keeps what a license gave.
use papi.Common.{
  ℕ, ◌≡◌, refl, sym, ◌∙◌, ap, List, [], ◌∷◌, Option, none, some, ◌⊎◌, inl, inr, ◌==◌, ==_iff,
  length, Bool-cases, All,
}
use papi.Operators.Tokens.{Engine}
use papi.Operators.Editions.{
  Resolved, Signatures, Cached, Moment, resolve_file, env_edition, resolve,
}
use papi.Operators.Kept.{resolve-file, resolve-override}

module _ (engine : Engine) (sigs : Signatures) where
  -- What a call reads of a file modified at a time is in the cache after it, with that time.
  resolve_file-kept :
      (m : Moment) (t : ℕ) (cache : Option Cached)
      → (resolve_file engine sigs m (some t) cache).1
        ≡ some (record { modified = t; resolved = (resolve_file engine sigs m (some t) cache).0 })
  unfolding resolve_file
  resolve_file-kept m t none = refl
  resolve_file-kept m t (some k) = elim (Bool-cases (k.modified == t)) [
    | inl hit ↦ (let at = (==_iff k.modified t).0 hit in rw (hit, resolve_file, ← at) refl)
    | inr other ↦ rw (other, resolve_file) refl
  ]

  resolve_file-reads :
      (m : Moment) (modified : Option ℕ) (t : ℕ) (r : Resolved)
      → (modified ≡ some t) ⊎ (modified ≡ none)
      → (resolve_file engine sigs m modified (some (record { modified = t; resolved = r }))).1
        ≡ some (record { modified = t; resolved = r })
  unfolding resolve_file
  resolve_file-reads m modified t r (inl at) = rw (at, (==_iff t t).1 refl, resolve_file) refl
  resolve_file-reads m modified t r (inr gone) = rw (gone, resolve_file) refl

  -- The cache after some calls of `resolve`.
  unfoldable pub after_moments : Option Cached → List Moment → Option Cached
  after_moments cache [] = cache
  after_moments cache (m ∷ ms) = after_moments (resolve engine sigs m cache).1 ms

  resolve-keeps :
      (m : Moment) (t : ℕ) (r : Resolved)
      → (m.modified ≡ some t) ⊎ (m.modified ≡ none)
      → (resolve engine sigs m (some (record { modified = t; resolved = r }))).1
        ≡ some (record { modified = t; resolved = r })
  resolve-keeps m t r at = elim (Bool-cases (length (env_edition m) == 0)) [
    | inl unset ↦
        ap (λ k. k.1) (resolve-file engine sigs m _ ((==_iff (length (env_edition m)) 0).0 unset))
        ∙ resolve_file-reads m m.modified t r at
    | inr named ↦ ap (λ k. k.1) (resolve-override engine sigs m _ named)
  ]

  after_moments-keeps :
      (ms : List Moment) (t : ℕ) (r : Resolved)
      → All (λ k. (k.modified ≡ some t) ⊎ (k.modified ≡ none)) ms
      → after_moments (some (record { modified = t; resolved = r })) ms
        ≡ some (record { modified = t; resolved = r })
  unfolding after_moments
  after_moments-keeps [] t r h = refl
  after_moments-keeps (m ∷ ms) t r (at, h) =
      ap (λ c. after_moments c ms) (resolve-keeps m t r at) ∙ after_moments-keeps ms t r h

  resolve_file-again :
      (m : Moment) (t : ℕ) (r : Resolved)
      → (resolve_file engine sigs m (some t) (some (record { modified = t; resolved = r }))).0 ≡ r
  unfolding resolve_file
  resolve_file-again m t r = rw ((==_iff t t).1 refl, resolve_file) refl

  -- What a call without an edition in the environment gives for a license file is what every later
  -- such call gives, after any calls in between at which the file was absent or had the same time of
  -- modification, whatever their environments: so also after the license has expired, and whatever
  -- the file's text, the key and the clock then are.
  pub resolve-outlives :
      (cache : Option Cached) (m : Moment) (between : List Moment) (last : Moment) (t : ℕ)
      → length (env_edition m) ≡ 0
      → m.modified ≡ some t
      → All (λ k. (k.modified ≡ some t) ⊎ (k.modified ≡ none)) between
      → length (env_edition last) ≡ 0
      → last.modified ≡ some t
      → (resolve engine sigs last (after_moments (resolve engine sigs m cache).1 between)).0
        ≡ (resolve engine sigs m cache).0
  resolve-outlives cache m between last t e at h e' at' =
      let read = (resolve_file engine sigs m (some t) cache).0 in
      let first_call : resolve engine sigs m cache ≡ resolve_file engine sigs m (some t) cache =
        resolve-file engine sigs m cache e ∙ ap (λ k. resolve_file engine sigs m k cache) at in
      let kept : after_moments (resolve engine sigs m cache).1 between
          ≡ some (record { modified = t; resolved = read }) =
        ap (λ k. after_moments k.1 between) first_call
        ∙ ap (λ c. after_moments c between) (resolve_file-kept m t cache)
        ∙ after_moments-keeps between t read h in
      ap (λ c. (resolve engine sigs last c).0) kept
      ∙ ap (λ k. k.0) (resolve-file engine sigs last _ e')
      ∙ ap
          (λ k.
            (resolve_file engine sigs last k (some (record { modified = t; resolved = read }))).0)
          at'
      ∙ resolve_file-again last t read
      ∙ ap (λ k. k.0) (sym first_call)
