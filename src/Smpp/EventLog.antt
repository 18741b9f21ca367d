-- ===== src/Smpp/EventLog.antt =====
-- minisms/internal/smpp/egresslog/hub.go: the lines of a carrier's or a client's sessions, kept and
-- sent to viewers. A channel is the list of the lines that its viewer has not read yet. Times are
-- numbers of nanoseconds, and a nil hub is left out.
pub mod Bounded
pub mod History
use mini_sms.Prelude.{
  ℕ, ◌+◌, ◌-◌, ◌*◌, ◌%◌, ◌^◌, Bool, true, false, ◌||◌, Option, none, some, List, [], ◌∷◌, ◌++◌, map,
  length, drop, any, if◌then◌else◌, ltb, ◌==◌,
}
use mini_sms.Text.{Text, codes, text_eq, is_empty}
use mini_sms.Routing.Cache.{put}
use mini_sms.Smpp.Throttle.{minute}

abbrev pub max_lines_per_carrier : ℕ
max_lines_per_carrier = 500

abbrev pub subscriber_buffer : ℕ
subscriber_buffer = 256

abbrev pub debug_window : ℕ
debug_window = 30 * minute

pub record Viewer : Type 0 where
  pub id : ℕ
  pub unread : List Text

pub record Hub : Type 0 where
  pub history : Text → List Text
  pub subs : Text → List Viewer
  pub debug_until : Text → Option ℕ
  pub unmatched : Text → ℕ
  pub next_id : ℕ

-- NewHub
unfoldable pub new_hub : Hub
new_hub = record {
  history = λ k. [];
  subs = λ k. [];
  debug_until = λ k. none;
  unmatched = λ k. 0;
  next_id = 0;
}

-- IncUnmatched, an int64 by its bits
unfoldable pub inc_unmatched : Hub → Text → ℕ × Hub
unfolding put
inc_unmatched h key =
    if is_empty key
    then (0, h)
    else let n = (h.unmatched key + 1) % 2 ^ 64 in
      (n, record h { unmatched = put h.unmatched key n })

-- SetDebug
unfoldable pub set_debug : Hub → Text → Bool → ℕ → Bool × Hub
unfolding put
set_debug h key on now =
    if is_empty key
    then (false, h)
    else if on
    then (true, record h { debug_until = put h.debug_until key (some (now + debug_window)) })
    else (false, record h { debug_until = put h.debug_until key none })

-- Debug
unfoldable pub debug : Hub → Text → ℕ → Bool
debug h key now =
    if is_empty key
    then false
    else elim (h.debug_until key) [ none ↦ false | some til ↦ ltb now til ]

-- strings.ReplaceAll of one character by a space
unfoldable pub blank_out : ℕ → Text → Text
blank_out old line = map (λ c. if c == old then b' ' else c) line

abbrev pub flatten : Text → Text
flatten line = blank_out 10 (blank_out 13 line)

-- sanitizeVal
unfoldable pub sanitize_val : Text → Text
unfolding blank_out
sanitize_val raw =
    let v = flatten raw in if any (λ c. c == b' ' || c == 9) v then b'"' ∷ (v ++ (b'"' ∷ [])) else v

-- buf[len(buf)-max:]
abbrev pub last_of : ℕ → List Text → List Text
last_of max buf = if ltb max (length buf) then drop (length buf - max) buf else buf

-- The non-blocking send on one channel.
abbrev pub offer : Text → Viewer → Viewer
offer line v =
    if ltb (length v.unread) subscriber_buffer
    then record v { unread = v.unread ++ (line ∷ []) }
    else v

-- Append
unfoldable pub append : Hub → Text → Text → Hub
unfolding put blank_out
append h key raw =
    let line = flatten raw in
    if is_empty key then h else record h {
      history = put h.history key (last_of max_lines_per_carrier (h.history key ++ (line ∷ [])));
      subs = put h.subs key (map (offer line) (h.subs key));
    }

-- Subscribe: the lines so far, the id of the channel, and the hub
unfoldable pub subscribe : Hub → Text → List Text × ℕ × Hub
unfolding put
subscribe h key = (
  h.history key,
  h.next_id,
  record h {
    next_id = h.next_id + 1;
    subs = put h.subs key (h.subs key ++ (record { id = h.next_id; unread = [] } ∷ []));
  },
)

unfoldable pub without : ℕ → List Viewer → List Viewer
without i [] = []
without i (v ∷ vs) = if v.id == i then without i vs else v ∷ without i vs

-- The cancel that Subscribe returns.
unfoldable pub cancel : Hub → Text → ℕ → Hub
unfolding put without
cancel h key i = record h { subs = put h.subs key (without i (h.subs key)) }

pub data Call : Type 0 where
  appends : Text → Text → Call
  subscribes : Text → Call
  cancels : Text → ℕ → Call

abbrev pub after : Hub → Call → Hub
after h (appends key line) = append h key line
after h (subscribes key) = let (lines, i, h2) = subscribe h key in h2
after h (cancels key i) = cancel h key i

abbrev pub run : Hub → List Call → Hub
run h [] = h
run h (c ∷ cs) = run (after h c) cs
