-- ===== src/Server/Serving.antt =====
-- cmd/relayforge/main.go: how `run` ends once its parts are set up, and the exit status of main. What
-- the listener, the shutdown and the timers do is an argument.
pub mod Endings
use relayforge.Prelude.{
  if◌then◌else◌, ◌∷◌, [], List, none, some, Option, false, Bool, ◌||◌, ℕ, Result, ok, err, ◌>>◌,
}
use relayforge.Prelude.Text.{Text, codes, text_eq}
use relayforge.Server.{StartError}

-- What server.ListenAndServe returns.
pub data ServeEnd : Type 0 where
  server_closed : ServeEnd
  crashed : Text → ServeEnd

-- `first` is what the first select receives, nothing being the end of the signal context; `late` what
-- the second one receives before its timer; `shutdown_error` the error of server.Shutdown; and
-- `workers_done` whether the last one finds the workers stopped.
pub record Events : Type 0 where
  pub first : Option ServeEnd
  pub shutdown_error : Option Text
  pub late : Option ServeEnd
  pub workers_done : Bool

pub data StopError : Type 0 where
  serve_failed : Text → StopError
  shutdown_failed : Text → StopError
  stop_failed : Text → StopError
  workers_late : StopError

-- `!errors.Is(err, http.ErrServerClosed)` on what was received, with the error made of it.
abbrev failing : (Text → StopError) → Option ServeEnd → Option StopError
failing f none = none
failing f (some server_closed) = none
failing f (some (crashed e)) = some (f e)

abbrev fail_with : Option StopError → Result StopError (Unit {0})
fail_with none = ok tt
fail_with (some e) = err e

abbrev shutdown_of : Option Text → Option StopError
shutdown_of none = none
shutdown_of (some e) = some (shutdown_failed e)

-- run, from the first select on.
unfoldable pub serve : Events → Result StopError (Unit {0})
serve v =
    let serve_error = failing serve_failed v.first in
    fail_with (shutdown_of v.shutdown_error)
    >> fail_with (failing stop_failed v.late)
    >> (if v.workers_done then ok tt else err workers_late)
    >> fail_with serve_error

-- The error of run: of a part that cannot be set up, or of the end.
pub data RunError : Type 0 where
  start_failed : StartError → RunError
  ended : StopError → RunError

unfoldable pub run : Result StartError (Unit {0}) → Events → Result RunError (Unit {0})
unfolding serve
run (err e) v = err (start_failed e)
run (ok _) v = elim (serve v) [ ok _ ↦ ok tt | err e ↦ err (ended e) ]

-- The test of main on its arguments, the first of which is the name of the program.
unfoldable pub asks_version : List Text → Bool
asks_version (name ∷ argument ∷ []) =
    text_eq argument (codes "version") || text_eq argument (codes "--version")
asks_version _ = false

-- The exit status of main; `printed` tells whether the version could be written.
unfoldable pub main_status : List Text → Bool → Result RunError (Unit {0}) → ℕ
unfolding asks_version
main_status args printed outcome =
    if asks_version args then (if printed then 0 else 1) else elim outcome [ ok _ ↦ 0 | err _ ↦ 1 ]
