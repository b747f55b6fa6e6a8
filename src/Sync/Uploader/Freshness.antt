-- ===== src/Sync/Uploader/Freshness.antt =====
-- What internal/synchronizer/uploader.go gives to the portal, in any interleaving with the observer.
use cpodoperator.Base.{
  ◌≡◌, refl, none, some, List, [], ◌∷◌, arith, ◌==◌, Option-cases, inl, inr, if◌then◌else◌,
  string_eq,
}
use cpodoperator.Sync.Observer.Payload.{Payload}
use cpodoperator.Sync.Uploader.{
  zero_payload, Link, receive, upload, Exchange, begin, after_upload, after_send, ◌⟶◌, send,
  upload_one, stop, IsReachable, start, step,
}

-- The newest payload that was sent.
abbrev pub newest : List Payload → Payload
newest [] = zero_payload
newest (p ∷ ps) = p

-- Once it has received, the uploader has the newest payload.
abbrev IsFresh : Exchange → Type 0
IsFresh e = (receive e.link).cached ≡ newest e.sent

receive_twice : (l : Link) → receive (receive l) ≡ receive l
unfolding receive
receive_twice l = elim (Option-cases l.channel) [ inl e ↦ ground arith | inr (p, e) ↦ ground arith ]

⟶-IsFresh : {e f : Exchange} → e ⟶ f → IsFresh e → IsFresh f
unfolding after_send after_upload upload receive
⟶-IsFresh (send p empty) h = refl
⟶-IsFresh {e} upload_one h = rw receive_twice h
⟶-IsFresh stop h = h

reachable-IsFresh : (e : Exchange) → IsReachable e → IsFresh e
unfolding begin receive
reachable-IsFresh e start = refl
reachable-IsFresh e (step r s) = ⟶-IsFresh s (reachable-IsFresh _ r)

-- In every state that the observer and the uploader can reach, in any interleaving, a run of the
-- uploader gives the portal the newest payload that the observer has sent, and nothing if none was
-- sent or the newest one has no identifier.
pub upload-newest :
    (e : Exchange)
    → IsReachable e
    → (upload e.link).1 ≡ (if (newest e.sent).cpod_id == "" then none else some (newest e.sent))
unfolding upload
upload-newest e r = rw (reachable-IsFresh e r) refl
