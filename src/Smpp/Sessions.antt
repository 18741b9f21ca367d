-- ===== src/Smpp/Sessions.antt =====
-- minisms/internal/smpp/server/sessions.go: the registry of bound sessions. A *session is a number,
-- and `at` gives the fields that the program never changes after the allocation. A Go map is a
-- function; the set of sessions is a list, in the order in which they were added.
mod Pointers
pub mod Registered
pub mod RoundTrip
use mini_sms.Prelude.{
  ℕ, ◌+◌, ◌-◌, ◌≡◌, Bool, true, false, ◌&&◌, ◌||◌, Option, none, some, List, [], ◌∷◌, ◌++◌, arith,
  if◌then◌else◌, ltb, ◌==◌, any,
}
use mini_sms.Text.{Text, codes, text_eq}
use mini_sms.Routing.Cache.{put}

pub data BindMode : Type 0 where
  bind_tx bind_rx bind_trx : BindMode

-- (bindMode).String
abbrev pub mode_name : BindMode → Text
mode_name bind_tx = codes "tx"
mode_name bind_rx = codes "rx"
mode_name bind_trx = codes "trx"

abbrev pub can_submit : BindMode → Bool
can_submit bind_tx = true
can_submit bind_rx = false
can_submit bind_trx = true

abbrev pub can_deliver : BindMode → Bool
can_deliver bind_tx = false
can_deliver bind_rx = true
can_deliver bind_trx = true

pub record Session : Type 0 where
  pub client_id : Text
  pub client_name : Text
  pub mode : BindMode
  pub remote : Option Text
  pub limit : ℕ

pub record Registry : Type 0 where
  pub by_client : Text → ℕ
  pub sessions : List ℕ
  pub deliver : Text → List ℕ

abbrev pub member : ℕ → List ℕ → Bool
member p ps = any (λ q. q == p) ps

-- The first occurrence goes: append(list[:i], list[i+1:]...), or delete on the set.
unfoldable pub erase : ℕ → List ℕ → List ℕ
erase p [] = []
erase p (q ∷ ps) = if q == p then ps else q ∷ erase p ps

-- A loop that keeps the members that pass a test.
unfoldable pub select : (ℕ → Bool) → List ℕ → List ℕ
select f [] = []
select f (p ∷ ps) = if f p then p ∷ select f ps else select f ps

-- newSessionRegistry
unfoldable pub new_registry : Registry
new_registry = record { by_client = λ c. 0; sessions = []; deliver = λ c. [] }

-- bindCount
abbrev pub bind_count : Registry → Text → ℕ
bind_count r client = r.by_client client

abbrev pub head_of : List ℕ → Option ℕ
head_of [] = none
head_of (p ∷ ps) = some p

-- pickDeliver
unfoldable pub pick_deliver : Registry → Text → Option ℕ
pick_deliver r client = head_of (r.deliver client)

module _ (at : ℕ → Session) where
  -- add
  unfoldable pub add : Registry → ℕ → Registry
  unfolding put
  add r p =
      let c = (at p).client_id in
      record r {
        sessions = if member p r.sessions then r.sessions else r.sessions ++ (p ∷ []);
        by_client = put r.by_client c (r.by_client c + 1);
        deliver =
            if can_deliver (at p).mode
            then put r.deliver c (r.deliver c ++ (p ∷ []))
            else r.deliver;
      }

  -- remove; an entry that reaches 0 or [] is deleted, and reads as that
  unfoldable pub remove : Registry → ℕ → Registry × Bool
  unfolding put erase
  remove r p =
      let c = (at p).client_id in
      if member p r.sessions
      then (
        record {
          sessions = erase p r.sessions;
          by_client =
              if ltb 0 (r.by_client c) then put r.by_client c (r.by_client c - 1) else r.by_client;
          deliver = put r.deliver c (erase p (r.deliver c));
        },
        true,
      )
      else (r, false)

  -- The sessions whose connections closeClient closes.
  unfoldable pub close_client : Registry → Text → List ℕ
  unfolding select
  close_client r client = select (λ p. text_eq (at p).client_id client) r.sessions
