-- ===== src/Dlr/Forward/Recorded.antt =====
-- What is written down of a forward, and what a client reads from a receipt.
use mini_sms.Prelude.{
  ℕ, ◌+◌, ◌≡◌, ◌≤◌, Bool, true, false, ◌&&◌, ◌||◌, Option, none, some, [], ◌∷◌, if◌then◌else◌, leb,
}
use mini_sms.Text.{Text, codes, text_eq, is_empty, trim_space}
use mini_sms.Dlr.Status.{is_one_of, value_or_empty}
use mini_sms.Dlr.Forward.{
  ForwardRow, ClientEnd, smpp_ok, smpp_no_bind, no_url, forward_failed, blocked, success,
  is_smpp_mode,
}

module _ (end : ClientEnd) where
  -- Why a request to a URL has no answer from 200 to 299.
  pub data Unanswered (s : Text) : Type 0 where
    not_built : end.build s ≡ none → Unanswered s
    not_made : (url : Text) → end.build s ≡ some url → end.request_made url ≡ false → Unanswered s
    no_response : (url : Text) → end.build s ≡ some url → end.respond url ≡ none → Unanswered s
    other_code :
        (url : Text) (code : ℕ)
        → end.build s ≡ some url
        → end.respond url ≡ some code
        → (leb 200 code && leb code 299) ≡ false
        → Unanswered s

  -- What a word means, for a receipt in a mode and with a webhook.
  pub data Ended (mode : Text) (webhook : Option Text) (s : Text) : Text → Type 0 where
    by_session :
        (deliver : Text → Bool)
        → end.deliver ≡ some deliver
        → is_smpp_mode end mode ≡ true
        → deliver s ≡ true
        → Ended mode webhook s smpp_ok
    no_session :
        (deliver : Text → Bool)
        → end.deliver ≡ some deliver
        → text_eq mode (codes "smpp") ≡ true
        → deliver s ≡ false
        → Ended mode webhook s smpp_no_bind
    no_webhook : is_empty (trim_space (value_or_empty webhook)) ≡ true → Ended mode webhook s no_url
    not_allowed :
        (url : Text)
        → end.build s ≡ some url
        → end.url_allowed url ≡ false
        → Ended mode webhook s blocked
    not_answered : Unanswered s → Ended mode webhook s forward_failed
    answered :
        (url : Text) (code : ℕ)
        → end.build s ≡ some url
        → end.url_allowed url ≡ true
        → end.respond url ≡ some code
        → 200 ≤ code
        → code ≤ 299
        → Ended mode webhook s success

  -- The row after a forward that comes to this word, if the UPDATE gets through, and else as before.
  pub record Recorded (mode : Text) (webhook : Option Text) (s : Text) (row : ForwardRow)
      (r : Text × ForwardRow) : Type 0 where
    pub ended : Ended mode webhook s r.0
    pub stored : r.1.forward_status ≡ (if end.stores then some r.0 else row.forward_status)
    pub marked :
        r.1.is_forwarded
        ≡ (row.is_forwarded || (end.stores && is_one_of r.0 (smpp_ok ∷ success ∷ [])))
    pub counted :
        r.1.forward_attempts
        ≡ row.forward_attempts
          + (if end.stores && is_one_of r.0 (smpp_ok ∷ success ∷ forward_failed ∷ []) then 1 else 0)
