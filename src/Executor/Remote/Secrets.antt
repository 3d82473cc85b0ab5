-- ===== src/Executor/Remote/Secrets.antt =====
-- The temporary files that hold secrets.

use auto_heal.Prelude.{
  Bool, List, Option-cases, String, [], arith, contains, false, if◌then◌else◌, inl, inr, refl, some,
  true, ◌++◌, ◌==◌, ◌∷◌, ◌≡◌,
}
use auto_heal.Value.{Fields, str, text_at}
use auto_heal.Vault.Reference.{Resolved, from_vault, no_secret, plain, resolve_vault_ref}
use auto_heal.Executor.Outside.{Event, World, called, ran, removed, wrote}
use auto_heal.Executor.Remote.{
  Built, build_remote_command, invalid, lacks, line, materialize, no_command, printed_at,
  resolve_secret_file, run_built, run_remote, run_with_key, unlink,
}

unfoldable pub without : String → List String → List String
without p [] = []
without p (q ∷ qs) = let rest = without p qs in if q == p then rest else q ∷ rest

-- The temporary files that exist after the events, if these existed before them.
unfoldable pub files_after : List String → List Event → List String
files_after files [] = files
files_after files (wrote p t ∷ events) = files_after (p ∷ files) events
files_after files (removed p ∷ events) = files_after (without p files) events
files_after files (ran cmd ∷ events) = files_after files events
files_after files (called k ∷ events) = files_after files events

abbrev pub leftover : List Event → List String
leftover = files_after []

pub files_after-append :
    (files : List String) (xs ys : List Event)
    → files_after files (xs ++ ys) ≡ files_after (files_after files xs) ys
unfolding files_after
files_after-append files [] ys = refl
files_after-append files (wrote p t ∷ xs) ys = files_after-append (p ∷ files) xs ys
files_after-append files (removed p ∷ xs) ys = files_after-append (without p files) xs ys
files_after-append files (ran cmd ∷ xs) ys = files_after-append files xs ys
files_after-append files (called k ∷ xs) ys = files_after-append files xs ys

pub without-fresh : (p : String) (qs : List String) → contains p qs ≡ false → without p qs ≡ qs
unfolding without
without-fresh p [] h = refl
without-fresh p (q ∷ qs) h = ground (arith, without-fresh p qs)

pub without-cons : (p : String) (qs : List String) → contains p qs ≡ false → without p (p ∷ qs) ≡ qs
unfolding without
without-cons p qs h = ground (arith, without-fresh p qs h)

-- `os.unlink` does not fail.
abbrev pub IsRemovable : World → Type 0
IsRemovable w = (events : List Event) (p : String) → w.can_unlink events p ≡ true

pub unlink-removed :
    (w : World) (can : IsRemovable w) (p : String) (events : List Event)
    → unlink w p events ≡ events ++ removed p ∷ []
unlink-removed w can p events = rw (can events p) refl

-- A file that was just made and is removed
pub leftover-unlink_wrote :
    (w : World) (can : IsRemovable w) (events : List Event) (p t : String)
    → contains p (leftover events) ≡ false
    → leftover (unlink w p (events ++ wrote p t ∷ [])) ≡ leftover events
leftover-unlink_wrote w can events p t fresh =
    rw (unlink-removed w can p (events ++ wrote p t ∷ [])) (
      rw (files_after-append, files_after-append)
        (unfold files_after in without-cons p (leftover events) fresh))

run_with_key-leftover :
    (w : World) (can : IsRemovable w) (host ssh_user remote_cmd : String) (r : Resolved)
    (events : List Event)
    → contains (w.temp_path events) (leftover events) ≡ false
    → leftover (run_with_key w host ssh_user remote_cmd (materialize w r events)).1
      ≡ leftover events
run_with_key-leftover w can host ssh_user remote_cmd (plain value) events fresh =
    rw files_after-append (unfold files_after in refl)
run_with_key-leftover w can host ssh_user remote_cmd (no_secret e) events fresh = refl
run_with_key-leftover w can host ssh_user remote_cmd (from_vault (str s)) events fresh =
    rw (unlink-removed w can) (
      rw (files_after-append, files_after-append, files_after-append)
        (unfold files_after in without-cons (w.temp_path events) (leftover events) fresh))
run_with_key-leftover w can host ssh_user remote_cmd (from_vault _) events fresh =
    leftover-unlink_wrote w can events (w.temp_path events) "" fresh

run_built-leftover :
    (w : World) (can : IsRemovable w) (controller : Fields) (host ssh_user : String) (b : Built)
    (dry_run : Bool) (events : List Event)
    → contains (w.temp_path events) (leftover events) ≡ false
    → leftover (run_built w controller host ssh_user b dry_run events).1 ≡ leftover events
unfolding run_built resolve_secret_file
run_built-leftover w can controller host ssh_user (lacks e) dry_run events fresh = refl
run_built-leftover w can controller host ssh_user invalid dry_run events fresh = refl
run_built-leftover w can controller host ssh_user no_command dry_run events fresh = refl
run_built-leftover w can controller host ssh_user (line s) true events fresh = refl
run_built-leftover w can controller host ssh_user (line s) false events fresh =
    run_with_key-leftover w can host ssh_user s
      (resolve_vault_ref (w.get_secret events) (text_at "ssh_key" controller) (some "private_key"))
      events fresh

-- A remote run leaves the temporary files that were there before it and no other, however it
-- ends, if `mkstemp` chooses a name that none of them has.
pub run_remote-leftover :
    (w : World) (can : IsRemovable w) (controller action params : Fields) (dry_run : Bool)
    (events : List Event)
    → contains (w.temp_path events) (leftover events) ≡ false
    → leftover (run_remote w controller action params dry_run events).1 ≡ leftover events
unfolding run_remote
run_remote-leftover w can controller action params dry_run events fresh =
    elim (Option-cases (printed_at w "host" controller)) [
      | inl missing ↦ rw (missing, run_remote)
      | inr (host, e) ↦
          rw (e, run_remote)
            (elim (Option-cases (printed_at w "ssh_user" controller)) [
              | inl missing ↦ rw (missing, run_remote)
              | inr (user, f) ↦
                  rw (f, run_remote)
                    (run_built-leftover w can controller host user
                      (build_remote_command w action params) dry_run events fresh)
            ])
    ]
