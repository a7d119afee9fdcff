-- ===== src/Control/Serving.antt =====
-- src/bin/focld.rs: `run_control_server`, and what `main` waits for. `A` is the type of a stream.
use focl.Base.{
  String, Bool, true, false, Option, none, some, List, [], ◌∷◌, ◌++◌, map, ◌≡◌, refl, ap, Result,
  ok, err,
}
use focl.Archive.World.{M}
use focl.Control.Boot.{cleanup_socket}

-- The loop over what `accept` gives: the error with which it ends, if one came, and the streams to each
-- of which it gave a task that runs `handle_client`.
unfoldable pub run_control_server : {A : Type 0} → List (Result A) → Option String × List A
run_control_server [] = (none, [])
run_control_server (err e ∷ more) = (some e, [])
run_control_server (ok stream ∷ more) =
    let (end, served) = run_control_server more in (end, stream ∷ served)

-- What happens while `main` waits in its `select!`. The end of the accept task is none of what it
-- waits for.
pub data Wake : Type 0 where
  ctrl_c : Wake
  shutdown_received : Wake
  accept_task_ended : Option String → Wake

unfoldable pub main_waits : List Wake → Bool
main_waits [] = true
main_waits (ctrl_c ∷ more) = false
main_waits (shutdown_received ∷ more) = false
main_waits (accept_task_ended e ∷ more) = main_waits more

-- The end of `main`: the accept task is aborted, and the socket removed.
unfoldable pub main_end : String → Bool → M (Unit {0})
main_end control_socket exists = cleanup_socket control_socket exists

-- After the first accept that fails no client is served, however many come, while `main` waits on.
pub accept_error_ends_serving :
    {A : Type 0} (served : List A) (error : String) (later : List (Result A))
    → (run_control_server (map ok served ++ err error ∷ later) ≡ (some error, served))
      × (main_waits (accept_task_ended (some error) ∷ []) ≡ true)
unfolding run_control_server main_waits
accept_error_ends_serving [] error later = (refl, refl)
accept_error_ends_serving (s ∷ served) error later =
    (ap (λ r. (r.0, s ∷ r.1)) (accept_error_ends_serving served error later).0, refl)
