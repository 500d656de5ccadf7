-- ===== src/Metrics/Recorder.antt =====
-- `Middleware` and `statusRecorder` of internal/metrics/metrics.go. A handler is the list of its
-- calls on the writer that it is given, oldest first. `Wire` is what net/http makes of them: the
-- first status that is not informational is sent, a write sends 200, and so does the end.
use mdtree.Prelude.{
  ℕ, ◌-◌, Bytes, ◌≡◌, refl, Bool, true, false, List, [], ◌∷◌, ◌++◌, arith, ◌||◌, ◌&&◌, not, leb,
  ltb, ◌==◌, if◌then◌else◌, All,
}
use mdtree.Metrics.{Metrics, observe_request}

pub data Call : Type 0 where
  write_header : ℕ → Call
  write : Bytes → Call

pub record Wire : Type 0 where
  pub status : ℕ
  pub sent : Bool
  pub body : Bytes

abbrev pub new_wire : Wire
new_wire = record { status = 200; sent = false; body = [] }

-- 101 is final.
abbrev pub is_informational : ℕ → Bool
is_informational code = leb 100 code && ltb code 200 && not (code == 101)

unfoldable pub on_wire : Call → Wire → Wire
on_wire (write_header code) w =
    if w.sent || is_informational code then w else record w { status = code; sent = true }
on_wire (write b) w = record w { sent = true; body = w.body ++ b }

pub record Recorder : Type 0 where
  pub inner : Wire
  pub status : ℕ
  pub wrote_header : Bool

unfoldable pub new_recorder : Wire → Recorder
new_recorder w = record { inner = w; status = 200; wrote_header = false }

-- `WriteHeader` and `Write` of the recorder.
unfoldable pub record_call : Call → Recorder → Recorder
record_call (write_header code) r = record {
  inner = on_wire (write_header code) r.inner;
  status = if r.wrote_header then r.status else code;
  wrote_header = true;
}
record_call (write b) r = record r { inner = on_wire (write b) r.inner; wrote_header = true }

abbrev pub serve : List Call → Wire → Wire
serve [] w = w
serve (c ∷ cs) w = serve cs (on_wire c w)

abbrev pub serve_recorded : List Call → Recorder → Recorder
serve_recorded [] r = r
serve_recorded (c ∷ cs) r = serve_recorded cs (record_call c r)

-- The wrapped handler: what is sent, and the metrics.
unfoldable pub middleware : List Call → ℕ → ℕ → Wire → Metrics → Wire × Metrics
middleware next start ended w m =
    let r = serve_recorded next (new_recorder w) in
    (r.inner, observe_request (ended - start) (leb 500 r.status) m)

-- No informational status is written.
abbrev pub IsFinal : Call → Type 0
IsFinal (write_header code) = is_informational code ≡ false
IsFinal (write b) = Unit

-- The recorder that has seen what the client has.
abbrev in_step : Wire → Recorder
in_step w = record { inner = w; status = w.status; wrote_header = w.sent }

record_call-in_step :
    (c : Call) (w : Wire) → IsFinal c → record_call c (in_step w) ≡ in_step (on_wire c w)
unfolding record_call on_wire
record_call-in_step (write_header code) w h = ground arith
record_call-in_step (write b) w h = refl

serve_recorded-in_step :
    (cs : List Call) (w : Wire)
    → All IsFinal cs
    → serve_recorded cs (in_step w) ≡ in_step (serve cs w)
serve_recorded-in_step [] w h = refl
serve_recorded-in_step (c ∷ cs) w h =
    rw (record_call-in_step c w h.0) (serve_recorded-in_step cs (on_wire c w) h.1)

-- A handler that writes no informational status is sent to the client as it would be without the
-- middleware, and counts as one request of the time it took, and as an error exactly when the
-- client gets a status of 500 or more.
pub middleware-serve :
    (next : List Call) (start ended : ℕ) (m : Metrics)
    → All IsFinal next
    → middleware next start ended new_wire m ≡ (
      serve next new_wire,
      observe_request (ended - start) (leb 500 (serve next new_wire).status) m,
    )
unfolding middleware new_recorder
middleware-serve next start ended m h = rw (serve_recorded-in_step next new_wire h) refl
