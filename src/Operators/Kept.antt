-- ===== src/Operators/Kept.antt =====
-- What control-plane/lib/edition.ts keeps of a license between two changes of its file.
use papi.Common.{
  ℕ, ◌≡◌, refl, sym, ◌∙◌, List, [], ◌∷◌, Option, none, some, false, ◌⊎◌, inl, inr, ◌==◌, ==_iff,
  length, Bool-cases, Memᴰ, Option-cases, subst,
}
use papi.Common.Text.{Text}
use papi.Common.Result.{Result, ok, err}
use papi.Operators.Tokens.{Engine}
use papi.Operators.Editions.{
  Edition, known_features, Resolved, nothing, Signatures, edition_of, validate_license, Cached,
  Moment, text_or_empty, or_nothing, read_license, resolve_file, overridden, env_edition, resolve,
}

module _ (engine : Engine) (sigs : Signatures) where
  -- The cache after calls of `resolve`, with the moments of the calls, the latest first.
  pub data Resolves : List Moment → Option Cached → Type 0 where
    start : Resolves [] none
    call :
        {ms : List Moment} {cache : Option Cached} (m : Moment)
        → Resolves ms cache
        → Resolves (m ∷ ms) (resolve engine sigs m cache).1

  -- The license file of the moment was valid then.
  pub record IsValidAt (m : Moment) (r : Resolved) : Type 0 where
    pub text : Text
    pub there : m.text ≡ some text
    pub valid : validate_license engine sigs text (text_or_empty m.pubkey_env) m.now ≡ ok r

  -- Nothing, or what a license gave that was valid at one of the moments, when the file had the time
  -- of modification.
  abbrev pub IsEarned : List Moment → ℕ → Resolved → Type 0
  IsEarned ms modified r =
      (r ≡ nothing) ⊎ ((m : Moment) × Memᴰ m ms × (m.modified ≡ some modified) × IsValidAt m r)

  abbrev IsEarnedCache : List Moment → Option Cached → Type 0
  IsEarnedCache ms none = Unit
  IsEarnedCache ms (some c) = IsEarned ms c.modified c.resolved

  IsEarned-later :
      (m : Moment) (ms : List Moment) (modified : ℕ) (r : Resolved)
      → IsEarned ms modified r
      → IsEarned (m ∷ ms) modified r
  IsEarned-later m ms modified r (inl e) = inl e
  IsEarned-later m ms modified r (inr (k, there, t, v)) = inr (k, Memᴰ.tail there, t, v)

  IsEarnedCache-later :
      (m : Moment) (ms : List Moment) (cache : Option Cached)
      → IsEarnedCache ms cache
      → IsEarnedCache (m ∷ ms) cache
  IsEarnedCache-later m ms none e = tt
  IsEarnedCache-later m ms (some c) e = IsEarned-later m ms c.modified c.resolved e

  or_nothing-IsEarned :
      (m : Moment) (ms : List Moment) (modified : ℕ) (text : Text) (given : Result Resolved)
      → m.modified ≡ some modified
      → m.text ≡ some text
      → validate_license engine sigs text (text_or_empty m.pubkey_env) m.now ≡ given
      → IsEarned (m ∷ ms) modified (or_nothing given)
  unfolding or_nothing
  or_nothing-IsEarned m ms modified text (err thrown) t there e = inl refl
  or_nothing-IsEarned m ms modified text (ok r) t there e =
      inr (m, Memᴰ.head refl, t, record { text = text; there = there; valid = e })

  read_license-IsEarned :
      (m : Moment) (ms : List Moment) (modified : ℕ)
      → m.modified ≡ some modified
      → IsEarned (m ∷ ms) modified (read_license engine sigs m)
  unfolding read_license
  read_license-IsEarned m ms modified t = elim (Option-cases m.text) [
    | inl gone ↦ inl (rw (gone, read_license) refl)
    | inr (text, there) ↦
        (let given = validate_license engine sigs text (text_or_empty m.pubkey_env) m.now in
          let e : read_license engine sigs m ≡ or_nothing given = rw (there, read_license) refl in
          subst (IsEarned (m ∷ ms) modified) (sym e)
            (or_nothing-IsEarned m ms modified text given t there refl))
  ]

  -- What the environment names, or what the cache or the license gives.
  resolve_file-IsEarned :
      (m : Moment) (ms : List Moment) (modified : Option ℕ) (cache : Option Cached)
      → m.modified ≡ modified
      → IsEarnedCache ms cache
      → IsEarnedCache (m ∷ ms) (resolve_file engine sigs m modified cache).1
        × (((resolve_file engine sigs m modified cache).0 ≡ nothing)
            ⊎ ((t : ℕ) × (modified ≡ some t)
                × IsEarned (m ∷ ms) t (resolve_file engine sigs m modified cache).0))
  unfolding resolve_file
  resolve_file-IsEarned m ms none cache e c = (IsEarnedCache-later m ms cache c, inl refl)
  resolve_file-IsEarned m ms (some t) none e c =
      (let fresh = read_license-IsEarned m ms t e in (fresh, inr (t, refl, fresh)))
  resolve_file-IsEarned m ms (some t) (some k) e c = elim (Bool-cases (k.modified == t)) [
    | inl same ↦
        (let old = IsEarned-later m ms k.modified k.resolved c in
          let at = (==_iff k.modified t).0 same in
          rw (same, resolve_file) (old, inr (t, refl, rw at at old)))
    | inr other ↦
        (let fresh = read_license-IsEarned m ms t e in
          rw (other, resolve_file) (fresh, inr (t, refl, fresh)))
  ]

  pub resolve-file :
      (m : Moment) (cache : Option Cached)
      → length (env_edition m) ≡ 0
      → resolve engine sigs m cache ≡ resolve_file engine sigs m m.modified cache
  unfolding resolve
  resolve-file m cache e = rw ((==_iff (length (env_edition m)) 0).1 e) refl

  pub resolve-override :
      (m : Moment) (cache : Option Cached)
      → (length (env_edition m) == 0) ≡ false
      → resolve engine sigs m cache ≡ (overridden (edition_of (env_edition m)), cache)
  unfolding resolve
  resolve-override m cache e = rw e refl

  Resolves-IsEarned :
      {ms : List Moment} {cache : Option Cached} → Resolves ms cache → IsEarnedCache ms cache
  Resolves-IsEarned start = tt
  Resolves-IsEarned (call {ms} {cache} m runs) =
      let before = Resolves-IsEarned runs in
      elim (Bool-cases (length (env_edition m) == 0)) [
        | inl open_file ↦
            subst (λ k. IsEarnedCache (m ∷ ms) k.1)
              (sym (resolve-file m cache ((==_iff (length (env_edition m)) 0).0 open_file)))
              (resolve_file-IsEarned m ms m.modified cache refl before).0
        | inr named ↦
            subst (λ k. IsEarnedCache (m ∷ ms) k.1) (sym (resolve-override m cache named))
              (IsEarnedCache-later m ms cache before)
      ]

  -- Why an edition and its features are in force at a moment.
  pub data Grounds (m : Moment) (ms : List Moment) (r : Resolved) : Type 0 where
    not_hosted : r ≡ nothing → Grounds m ms r
    by_environment :
        (edition : Edition)
        → edition_of (env_edition m) ≡ some edition
        → r ≡ record { edition = edition; features = known_features }
        → Grounds m ms r
    by_license :
        (k : Moment)
        → Memᴰ k (m ∷ ms)
        → m.modified ≡ k.modified
        → length (env_edition m) ≡ 0
        → IsValidAt k r
        → Grounds m ms r

  override-Grounds :
      (m : Moment) (ms : List Moment) (named : Option Edition)
      → edition_of (env_edition m) ≡ named
      → Grounds m ms (overridden named)
  unfolding overridden
  override-Grounds m ms none e = not_hosted refl
  override-Grounds m ms (some edition) e = by_environment edition e refl

  earned-Grounds :
      (m : Moment) (ms : List Moment) (t : ℕ) (r : Resolved)
      → length (env_edition m) ≡ 0
      → m.modified ≡ some t
      → IsEarned (m ∷ ms) t r
      → Grounds m ms r
  earned-Grounds m ms t r unset at (inl e) = not_hosted e
  earned-Grounds m ms t r unset at (inr (k, there, then_at, valid)) =
      by_license k there (at ∙ sym then_at) unset valid

  file-Grounds :
      (m : Moment) (ms : List Moment) (r : Resolved)
      → length (env_edition m) ≡ 0
      → (r ≡ nothing) ⊎ ((t : ℕ) × (m.modified ≡ some t) × IsEarned (m ∷ ms) t r)
      → Grounds m ms r
  file-Grounds m ms r unset (inl e) = not_hosted e
  file-Grounds m ms r unset (inr (t, at, earned)) = earned-Grounds m ms t r unset at earned

  -- After any calls of `resolve` from an empty cache: what the next call gives is the plain edition
  -- without features; or the edition that the environment names, with every feature; or, with no
  -- edition in the environment, what a license gave that was valid at this call or at an earlier one
  -- at which the file had the same time of modification.
  pub resolve_sound :
      (ms : List Moment) (cache : Option Cached) (m : Moment)
      → Resolves ms cache
      → Grounds m ms (resolve engine sigs m cache).0
  resolve_sound ms cache m runs = elim (Bool-cases (length (env_edition m) == 0)) [
    | inl unset ↦
        (let empty = (==_iff (length (env_edition m)) 0).0 unset in
          subst (λ k. Grounds m ms k.0) (sym (resolve-file m cache empty))
            (file-Grounds m ms _ empty
              (resolve_file-IsEarned m ms m.modified cache refl (Resolves-IsEarned runs)).1))
    | inr named ↦
        subst (λ k. Grounds m ms k.0) (sym (resolve-override m cache named))
          (override-Grounds m ms (edition_of (env_edition m)) refl)
  ]
