-- ===== src/Sync/Provider/Heartbeats.antt =====
-- What `HeartBeat` of pkg/provider/sxwl/sxwl.go gets to the portal.
use cpodoperator.Base.{
  String, ◌≡◌, ◌↔◌, refl, sym, ◌∙◌, ◌⊎◌, inl, inr, true, false, Bool-cases, Option-cases, Option,
  none, some, arith, ◌==◌,
}
use cpodoperator.Base.Int.{ℤ, pos, int_eq}
use cpodoperator.Sync.Observer.Payload.{Payload}
use cpodoperator.Sync.Provider.{
  Account, Request, Reply, Http, status_path, status_request, heart_beat,
}

true_ne_false : ¬ (true ≡ false)
true_ne_false h = cc

is_two_hundred : (n : ℤ) → (n == pos 200) ≡ true → n ≡ pos 200
is_two_hundred n h = ground arith

two_hundred : (n : ℤ) → n ≡ pos 200 → (n == pos 200) ≡ true
two_hundred n h = ground arith

module _ {W : Type 0} (H : Http W) (a : Account) (decode_payload : String → Option Payload) where
  -- The request is one that carries the payload, and was answered with status 200.
  pub record IsDelivered (w : W) (p : Payload) (r : Request) : Type 0 where
    pub posted : r.method ≡ "POST"
    pub carried : decode_payload r.body ≡ some p
    pub accepted : (reply : Reply) × ((H.send w r).1 ≡ some reply) × (reply.status_code ≡ pos 200)

  heart_beat-accepted :
      (w : W) (p : Payload) (url : String) (reply : Reply)
      → H.join_path a.base_url status_path ≡ some url
      → H.is_url url ≡ true
      → (H.send w (status_request H a url p)).1 ≡ some reply
      → (heart_beat H a w p).1 ≡ (reply.status_code == pos 200)
  unfolding heart_beat
  heart_beat-accepted w p url reply joined well_formed replied = ground arith

  heart_beat-unsent :
      (w : W) (p : Payload)
      → (H.join_path a.base_url status_path ≡ none)
        ⊎ ((url : String) × (H.join_path a.base_url status_path ≡ some url)
            × ((H.is_url url ≡ false) ⊎ ((H.send w (status_request H a url p)).1 ≡ none)))
      → (heart_beat H a w p).1 ≡ false
  unfolding heart_beat
  heart_beat-unsent w p (inl unjoined) = ground arith
  heart_beat-unsent w p (inr (url, joined, inl ill_formed)) = ground arith
  heart_beat-unsent w p (inr (url, joined, inr unanswered)) = ground arith

  -- Where the portal reads the payload's JSON as the payload: `HeartBeat` returns no error exactly if
  -- the URL can be put together and read, and its request, which is a POST that the portal reads as
  -- exactly that payload, is answered with status 200.
  pub heart_beat-IsDelivered :
      (w : W) (p : Payload)
      → decode_payload (H.encode_payload p) ≡ some p
      → ((heart_beat H a w p).1 ≡ true) ↔ (
          (url : String) × (H.join_path a.base_url status_path ≡ some url)
          × (H.is_url url ≡ true)
          × IsDelivered w p (status_request H a url p))
  unfolding status_request
  heart_beat-IsDelivered w p reads = (
    λ h. elim (Option-cases (H.join_path a.base_url status_path)) [
      | inl unjoined ↦ absurd (true_ne_false (sym h ∙ heart_beat-unsent w p (inl unjoined)))
      | inr (url, joined) ↦ elim (Bool-cases (H.is_url url)) [
        | inr ill ↦
            absurd (true_ne_false (sym h ∙ heart_beat-unsent w p (inr (url, joined, inl ill))))
        | inl well ↦ elim (Option-cases (H.send w (status_request H a url p)).1) [
          | inl none_back ↦
              absurd
                (true_ne_false (sym h ∙ heart_beat-unsent w p (inr (url, joined, inr none_back))))
          | inr (reply, replied) ↦
              let same = heart_beat-accepted w p url reply joined well replied in
              (
                url,
                joined,
                well,
                record {
                  posted = refl;
                  carried = reads;
                  accepted = (reply, replied, is_two_hundred reply.status_code (sym same ∙ h));
                },
              )
        ]
      ]
    ],
    λ (url, joined, well, delivered).
        let (reply, replied, accepted) = delivered.accepted in
        heart_beat-accepted w p url reply joined well replied
        ∙ two_hundred reply.status_code accepted,
  )
