-- ===== src/Sync/Manager/Reported.antt =====
-- What the three runnables of internal/synchronizer/manager.go give to the portal.
use mathlib.Core.List.{Memᴰ}
use mathlib.Core.Path.{subst}
use cpodoperator.Base.{
  All-Mem, ◌≡◌, refl, ◌⊎◌, inl, inr, Bool-cases, Option, none, some, List, ◌==◌, if◌then◌else◌, All,
  string_eq,
}
use cpodoperator.Sync.Observer.Payload.{Payload, observe}
use cpodoperator.Sync.Uploader.{
  zero_payload, Exchange, begin, receive, upload, after_upload, after_send, note,
}
use cpodoperator.Sync.Provider.{Account, Http, Kube, through_portal}
use cpodoperator.Sync.Manager.Buffers.{IsMap, sync_step-IsMap}
use cpodoperator.Sync.Manager.{
  Sight, System, new_manager, observed, synced, observed_once, sent_over, uploaded_once, Step,
  synchronize, look, send, beat, elsewhere, Reached, start, after,
}

-- What holds of a payload, if there is one.
abbrev pub IfAny : (Payload → Type 0) → Option Payload → Type 0
IfAny P none = Unit
IfAny P (some p) = P p

module _ (P : Payload → Type 0) where
  abbrev pub OrZero : Payload → Type 0
  OrZero c = (c ≡ zero_payload) ⊎ P c

  -- Each payload that is on the way has the property, or is none at all.
  pub record Holds (e : Exchange) : Type 0 where
    pub in_channel : IfAny P e.link.channel
    pub in_cache : OrZero e.link.cached
    pub uploads : All P e.uploaded

  begin-Holds : Holds begin
  unfolding begin
  begin-Holds = record { in_channel = tt; in_cache = inl refl; uploads = tt }

  after_send-Holds : (e : Exchange) (p : Payload) → P p → Holds e → Holds (after_send e p)
  unfolding after_send
  after_send-Holds e p k h = record { in_channel = k; in_cache = h.in_cache; uploads = h.uploads }

  -- A payload with an identifier is not the zero value.
  cached-given : (c : Payload) → OrZero c → IfAny P (if c.cpod_id == "" then none else some c)
  unfolding string_eq
  cached-given c (inl e) = rw e tt
  cached-given c (inr k) = elim (Bool-cases (c.cpod_id == "")) [ inl e ↦ rw e tt | inr e ↦ rw e k ]

  note-All : (o : Option Payload) (ps : List Payload) → IfAny P o → All P ps → All P (note o ps)
  note-All none ps k h = h
  note-All (some p) ps k h = (k, h)

  pub received_of :
      (channel : Option Payload) (c : Payload)
      → IfAny P channel
      → OrZero c
      → let l = receive (record { channel = channel; cached = c }) in
        IfAny P l.channel × OrZero l.cached
  unfolding receive
  received_of none c k h = (tt, h)
  received_of (some p) c k h = (tt, inr k)

  after_upload-Holds : (e : Exchange) → Holds e → Holds (after_upload e)
  unfolding after_upload upload
  after_upload-Holds e h =
      let (channel, cache) = received_of e.link.channel e.link.cached h.in_channel h.in_cache in
      record {
        in_channel = channel;
        in_cache = cache;
        uploads =
            note-All
              (if (receive e.link).cached.cpod_id == "" then none else some (receive e.link).cached)
              e.uploaded (cached-given (receive e.link).cached cache) h.uploads;
      }

module _ {W : Type 0} (kube : Kube W) (H : Http W) (sight : Sight W) (a : Account) where
  -- The observer puts the payload together in some state that is reached, where the buffer is a map.
  abbrev pub IsObserved : Payload → Type 0
  IsObserved p =
      (t : System W) × Reached kube H sight a t
      × IsMap t.buffer
      × ((observe (observed kube H sight a) a.identity t.buffer t.world).1 ≡ some p)

  pub record IsSound (s : System W) : Type 0 where
    pub is_map : IsMap s.buffer
    pub in_hand : IfAny IsObserved s.waiting
    pub on_the_way : Holds IsObserved s.exchange

  new_manager-IsSound : (w : W) → IsSound (new_manager w)
  unfolding new_manager
  new_manager-IsSound w = record {
    is_map = (tt, tt);
    in_hand = tt;
    on_the_way = begin-Holds IsObserved;
  }

  synced-IsSound : (s : System W) → IsSound s → IsSound (synced kube H sight a s)
  unfolding synced
  synced-IsSound s h = record {
    is_map = sync_step-IsMap (through_portal kube H a) s.stage s.world s.buffer h.is_map;
    in_hand = h.in_hand;
    on_the_way = h.on_the_way;
  }

  IfAny-observed :
      (s : System W) (o : Option Payload)
      → Reached kube H sight a s
      → IsMap s.buffer
      → (observe (observed kube H sight a) a.identity s.buffer s.world).1 ≡ o
      → IfAny IsObserved o
  IfAny-observed s none reached h e = tt
  IfAny-observed s (some p) reached h e = (s, reached, h, e)

  observed_once-IsSound :
      (s : System W)
      → Reached kube H sight a s
      → IsSound s
      → IsSound (observed_once kube H sight a s)
  unfolding observed_once
  observed_once-IsSound s reached h = record {
    is_map = h.is_map;
    in_hand = IfAny-observed s _ reached h.is_map refl;
    on_the_way = h.on_the_way;
  }

  sent_over-IsSound :
      (s : System W) (p : Payload)
      → s.waiting ≡ some p
      → IsSound s
      → IsSound (sent_over kube H sight a s p)
  unfolding sent_over
  sent_over-IsSound s p e h = record {
    is_map = h.is_map;
    in_hand = tt;
    on_the_way =
        after_send-Holds IsObserved s.exchange p (subst (IfAny IsObserved) e h.in_hand)
          h.on_the_way;
  }

  uploaded_once-IsSound : (s : System W) → IsSound s → IsSound (uploaded_once kube H sight a s)
  unfolding uploaded_once
  uploaded_once-IsSound s h = record {
    is_map = h.is_map;
    in_hand = h.in_hand;
    on_the_way = after_upload-Holds IsObserved s.exchange h.on_the_way;
  }

  Step-IsSound :
      (s t : System W) → Reached kube H sight a s → IsSound s → Step kube H sight a s t → IsSound t
  Step-IsSound s _ reached h synchronize = synced-IsSound s h
  Step-IsSound s _ reached h (look free) = observed_once-IsSound s reached h
  Step-IsSound s _ reached h (send p e empty) = sent_over-IsSound s p e h
  Step-IsSound s _ reached h beat = uploaded_once-IsSound s h
  Step-IsSound s _ reached h (elsewhere w) = record {
    is_map = h.is_map;
    in_hand = h.in_hand;
    on_the_way = h.on_the_way;
  }

  pub Reached-IsSound : (s : System W) → Reached kube H sight a s → IsSound s
  Reached-IsSound _ (start w) = new_manager-IsSound w
  Reached-IsSound t (after {s = s} before step) =
      Step-IsSound s t before (Reached-IsSound s before) step

  -- Let the synchronizer, the observer and the uploader of a manager run in any interleaving of their
  -- steps, and the cluster and the portal change at any time. Each payload that the portal has been
  -- given in a state that is reached was put together by the observer in a state that is reached too,
  -- and there no name stood twice in the buffer of the jobs that could not be created, and each job
  -- in it stood under its own name.
  pub Reached-IsObserved :
      (s : System W) (p : Payload)
      → Reached kube H sight a s
      → Memᴰ p s.exchange.uploaded
      → (t : System W) × Reached kube H sight a t
        × IsMap t.buffer
        × ((observe (observed kube H sight a) a.identity t.buffer t.world).1 ≡ some p)
  Reached-IsObserved s p reached m =
      let sound : IsSound s = Reached-IsSound s reached in
      let made : Holds IsObserved s.exchange = sound.on_the_way in
      All-Mem IsObserved s.exchange.uploaded p made.uploads m
