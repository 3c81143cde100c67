-- ===== src/Reset/Steps.antt =====
-- The reset table under every process: the requests of many operators interleave transaction by
-- transaction.
use papi.Common.{ℕ, ◌≡◌, ◌≢◌, String, [], ◌∷◌, Option, none, Bool, inl, inr}
use papi.Common.Text.{Text, trim}
use papi.Common.Json.{Fields}
use papi.Common.Result.{ok}
use papi.Reset.Table.{Status, pending, Operation, Preflight, World, expire_pending}
use papi.Reset.Actions.{
  Prepared, prepare, update_after_dispatch, reconcile_begin, reconcile_failed, reconcile_commit,
  Resolution, resolve,
}
use papi.Reset.Evolution.{Evolves, Evolves-refl, Evolves-trans, Evolves-append}
use papi.Reset.Rows.{
  expire-Evolves, settled-Evolves, inconclusive-Evolves, reconciled-Evolves, resolved-Evolves,
  prepare-rows, finished-rows, reconcile_begun-rows, settled-ne-pending, resolve-rows,
}

-- One statement or transaction of some process.
pub data Step (w : World) : World → Type 0 where
  expire :
      (now : ℕ) (account : String) (key : Option Text)
      → Step w (record w { operations = expire_pending now account key w.operations })
  prepared :
      (account : String) (key : Text) (id request_id : String) (preflight : Preflight) (now : ℕ)
      (p : Prepared)
      → prepare w account key id request_id preflight now ≡ ok p
      → Step w p.world
  finished :
      (id : String) (status : Status) (summary : Fields) (warning : Option String) (now : ℕ)
      (w' : World) (o : Operation)
      → status ≢ pending
      → update_after_dispatch w id status summary warning now ≡ ok (w', o)
      → Step w w'
  reconcile_begun :
      (account id : String) (now : ℕ) (w' : World) (o : Operation)
      → reconcile_begin w account id now ≡ ok (w', o)
      → Step w w'
  reconcile_unread : (id code : String) → Step w (reconcile_failed w id code)
  reconcile_done :
      (account id : String) (conclusive : Bool) (quota credits : Fields) (now : ℕ)
      → Step w (reconcile_commit w account id conclusive quota credits now).0
  resolved_by_hand :
      (account id : String) (resolution : Resolution) (note : Text) (now : ℕ) (w' : World)
      (o : Operation)
      → resolve w account id resolution note now ≡ ok (w', o)
      → Step w w'

pub data Reach (w : World) : World → Type 0 where
  here : Reach w w
  next : {v u : World} → Reach w v → Step v u → Reach w u

-- Every step changes rows along the status graph and adds rows at the end only.
pub Step-Evolves : {w w' : World} → Step w w' → Evolves w.operations w'.operations
Step-Evolves {w} (expire now account key) = expire-Evolves now account key w.operations
Step-Evolves {w} (prepared account key id request_id preflight now p e) =
    let swept = expire-Evolves now account none w.operations in
    elim (prepare-rows w account key id request_id preflight now p e) [
      | inl (d, table, saved) ↦ rw table swept
      | inr (d, row, table, fresh, idle, codex) ↦
          rw table (Evolves-trans _ _ _ swept (Evolves-append _ (p.operation ∷ [])))
    ]
Step-Evolves {w} (finished id status summary warning now w' o ne e) =
    rw (finished-rows w id status summary warning now w' o e)
      (settled-Evolves id status summary warning now w.operations)
Step-Evolves {w} (reconcile_begun account id now w' o e) =
    rw (reconcile_begun-rows w account id now w' o e) (expire-Evolves now account none w.operations)
Step-Evolves {w} (reconcile_unread id code) =
    unfold reconcile_failed in inconclusive-Evolves id code w.operations
Step-Evolves {w} (reconcile_done account id c quota credits now) =
    unfold reconcile_commit in reconciled-Evolves account id c quota credits now w.operations
Step-Evolves {w} (resolved_by_hand account id resolution note now w' o e) =
    let (s, ne, table) = resolve-rows w account id resolution note now w' o e in
    rw table (
      Evolves-trans _ _ _ (expire-Evolves now account none w.operations)
        (resolved-Evolves account id s (trim note) now _ (settled-ne-pending s ne)))

-- So does every history.
pub Reach-Evolves : {w w' : World} → Reach w w' → Evolves w.operations w'.operations
Reach-Evolves {w} here = Evolves-refl w.operations
Reach-Evolves (next r st) = Evolves-trans _ _ _ (Reach-Evolves r) (Step-Evolves st)
