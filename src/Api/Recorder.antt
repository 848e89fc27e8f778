-- ===== src/Api/Recorder.antt =====
-- internal/api/server.go: the ResponseWriter of the access log, which records the status and the
-- number of bytes. The inner writer keeps, as net/http does, the first status that it is given, less
-- those that are informational, or 200 when it is written to; and reports how many of the bytes it has
-- written.
use relayforge.Prelude.{
  if◌then◌else◌, ◌∷◌, [], List, some, none, Option, not, false, true, Bool, inr, inl, ◌⊎◌, refl,
  ◌≡◌, ◌+◌, ℕ, ◌==◌, ◌&&◌, All,
}
use relayforge.Prelude.Text.{between}

pub record Recorder : Type 0 where
  pub status : ℕ
  pub bytes : ℕ
  pub wrote_header : Bool
  pub sent : Option ℕ

-- The writer that accessLog makes.
unfoldable pub new_recorder : Recorder
new_recorder = record { status = 200; bytes = 0; wrote_header = false; sent = none }

-- The statuses that net/http sends ahead of another one: 100 to 199, less 101.
abbrev pub is_informational : ℕ → Bool
is_informational status = between 100 199 status && not (status == 101)

-- WriteHeader of the inner writer.
abbrev pub send : ℕ → Option ℕ → Option ℕ
send status none = if is_informational status then none else some status
send status (some first) = some first

unfoldable pub write_header : ℕ → Recorder → Recorder
write_header status w =
    if w.wrote_header
    then w
    else record w { wrote_header = true; status = status; sent = send status w.sent }

-- Write, of which the inner writer has written `written` bytes.
unfoldable pub write : ℕ → Recorder → Recorder
unfolding write_header
write written w =
    let begun = if not w.wrote_header then write_header 200 w else w in
    record begun { bytes = begun.bytes + written; sent = send 200 begun.sent }

-- What a handler may do with the writer.
pub data Call : Type 0 where
  call_header : ℕ → Call
  call_write : ℕ → Call

abbrev pub perform : Call → Recorder → Recorder
perform (call_header status) = write_header status
perform (call_write written) = write written

abbrev pub perform_all : List Call → Recorder → Recorder
perform_all [] w = w
perform_all (c ∷ cs) w = perform_all cs (perform c w)

-- The status of the log is the one that was sent, or 200 while nothing has been sent.
abbrev IsFaithful : Recorder → Type 0
IsFaithful w =
    ((w.wrote_header ≡ false) × (w.sent ≡ none) × (w.status ≡ 200))
    ⊎ ((w.wrote_header ≡ true) × (w.sent ≡ some w.status))

-- A call that does not set an informational status.
abbrev pub IsFinal : Call → Type 0
IsFinal (call_header status) = is_informational status ≡ false
IsFinal (call_write written) = Unit {0}

write_header-IsFaithful :
    (status : ℕ) (w : Recorder)
    → is_informational status ≡ false
    → IsFaithful w
    → IsFaithful (write_header status w)
unfolding write_header
write_header-IsFaithful status w final (inl (new, unsent, _)) =
    rw (new, write_header) (inr (refl, rw (unsent, final) refl))
write_header-IsFaithful status w final (inr (old, told)) = rw (old, write_header) (inr (refl, told))

write-IsFaithful : (written : ℕ) (w : Recorder) → IsFaithful w → IsFaithful (write written w)
unfolding write write_header
write-IsFaithful written w (inl (new, unsent, _)) =
    rw (new, write, write_header) (inr (refl, rw unsent refl))
write-IsFaithful written w (inr (old, told)) = rw (old, write) (inr (refl, rw told refl))

perform_all-IsFaithful :
    (cs : List Call) (w : Recorder) → All IsFinal cs → IsFaithful w → IsFaithful (perform_all cs w)
perform_all-IsFaithful [] w final f = f
perform_all-IsFaithful (call_header status ∷ cs) w final f =
    perform_all-IsFaithful cs (write_header status w) final.1
      (write_header-IsFaithful status w final.0 f)
perform_all-IsFaithful (call_write written ∷ cs) w final f =
    perform_all-IsFaithful cs (write written w) final.1 (write-IsFaithful written w f)

-- Whatever a handler calls, and in whatever order, but for informational statuses: the status that the access log and the metrics show
-- is the one that the client was sent, and 200 if nothing was sent.
pub perform_all-status :
    (cs : List Call)
    → All IsFinal cs
    → let w = perform_all cs new_recorder in
      (w.sent ≡ some w.status) ⊎ ((w.sent ≡ none) × (w.status ≡ 200))
unfolding new_recorder
perform_all-status cs final =
    elim (perform_all-IsFaithful cs new_recorder final (inl (refl, refl, refl))) [
      | inl (_, unsent, fine) ↦ inr (unsent, fine)
      | inr (_, told) ↦ inl told
    ]
