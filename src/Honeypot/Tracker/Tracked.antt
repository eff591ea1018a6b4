-- ===== src/Honeypot/Tracker/Tracked.antt =====
-- The tracker's bounds, and what its clean-up keeps.
use Prim.Native.String.{String}
use falx_v.Base.{
  ℕ, ◌+◌, ◌≤◌, ◌<◌, ◌≡◌, Bool, true, false, List, [], ◌∷◌, some, All, leb, ◌==◌, if◌then◌else◌, sym,
  length, length-append, Bool-cases, Option-cases, inl, inr, arith,
}
use mathlib.Core.Path.{subst}
use falx_v.Bpfmaps.Kernel.{KernelMaps}
use falx_v.Bpfmaps.Manager.{Manager, is_blocked_ipv4}
use falx_v.Afxdp.Packet.{PacketMeta}
use falx_v.Honeypot.Tracker.{
  Session, SessionEvent, Tracker, max_sessions, event_ch_cap, max_samples, new_tracker, emit,
  find_session, get_session, is_redirected, put_session, stored, event_of, session_expired,
  set_active_honeypot, opened, counted, track, process_meta, is_idle, active, report_idle,
  cleanup_expired_sessions,
}

-- What can happen to the tracker: a packet, a tick of the clean-up, a rotation of the honeypot, and
-- a receive from its channel.
pub data Happening : Type 0 where
  packet_arrives : PacketMeta → (now : ℕ) → Happening
  cleanup_ticks : (now : ℕ) → Happening
  honeypot_rotates : (id : ℕ) → String → Happening
  event_is_received : Happening

tail : {A : Type 0} → List A → List A
tail [] = []
tail (x ∷ xs) = xs

unfoldable pub received : Tracker → Tracker
unfolding tail
received t = record t { event_ch = tail t.event_ch }

-- The tracker after what happens, with the manager that each packet finds.
unfoldable pub happens :
    {W : Type 0} → KernelMaps W → Tracker → List (Manager W × Happening) → Tracker
happens K t [] = t
happens K t ((m, packet_arrives meta now) ∷ hs) = happens K (process_meta K m t meta now) hs
happens K t ((m, cleanup_ticks now) ∷ hs) = happens K (cleanup_expired_sessions t now) hs
happens K t ((m, honeypot_rotates id name) ∷ hs) = happens K (set_active_honeypot t id name) hs
happens K t ((m, event_is_received) ∷ hs) = happens K (received t) hs

abbrev pub IsSmall : ℕ × Session → Type 0
IsSmall p = length p.1.payload_samples ≤ max_samples

record Inv (t : Tracker) : Type 0 where
  few : length t.sessions ≤ max_sessions
  queued : length t.event_ch ≤ event_ch_cap
  small : All IsSmall t.sessions

counted-small :
    (s : Session) (meta : PacketMeta) (now : ℕ)
    → length s.payload_samples ≤ max_samples
    → length (counted s meta now).payload_samples ≤ max_samples
unfolding counted
counted-small s meta now h =
    ground (arith, length-append s.payload_samples (meta.payload_sample ∷ []))

put_session-IsSmall :
    (ss : List (ℕ × Session)) (id : ℕ) (s : Session)
    → length s.payload_samples ≤ max_samples
    → All IsSmall ss
    → All IsSmall (put_session ss id s) × (length (put_session ss id s) ≤ length ss + 1)
unfolding put_session
put_session-IsSmall [] id s h a = ((h, tt), omega arith)
put_session-IsSmall ((k, x) ∷ ss) id s h (a, rest) =
    ground (arith, put_session-IsSmall ss id s h rest)

find_session-small :
    (ss : List (ℕ × Session)) (id : ℕ) (s : Session)
    → All IsSmall ss
    → find_session ss id ≡ some s
    → length s.payload_samples ≤ max_samples
unfolding find_session
find_session-small [] id s a e = absurd (ground arith)
find_session-small ((k, x) ∷ ss) id s (a, rest) e = ground (arith, find_session-small ss id s rest)

emit-sessions : (t : Tracker) (ev : SessionEvent) → (emit t ev).sessions ≡ t.sessions
unfolding emit
emit-sessions t ev = ground arith

emit-queued :
    (t : Tracker) (ev : SessionEvent)
    → length t.event_ch ≤ event_ch_cap
    → length (emit t ev).event_ch ≤ event_ch_cap
unfolding emit
emit-queued t ev h = ground (arith, length-append t.event_ch (ev ∷ []))

emit-Inv : (t : Tracker) (ev : SessionEvent) → Inv t → Inv (emit t ev)
emit-Inv t ev i = record {
  few = subst (λ ss. length ss ≤ max_sessions) (sym (emit-sessions t ev)) i.few;
  queued = emit-queued t ev i.queued;
  small = subst (All IsSmall) (sym (emit-sessions t ev)) i.small;
}

emit_if-Inv :
    (b : Bool) (t : Tracker) (ev : SessionEvent) → Inv t → Inv (if b then emit t ev else t)
emit_if-Inv true t ev i = emit-Inv t ev i
emit_if-Inv false t ev i = i

-- A packet's session stored in a tracker that has room.
stored-Inv :
    (t : Tracker) (meta : PacketMeta) (s : Session) (now : ℕ)
    → Inv t
    → length t.sessions < max_sessions
    → length s.payload_samples ≤ max_samples
    → Inv (stored t meta s now)
unfolding stored
stored-Inv t meta s now i room h =
    let p = put_session-IsSmall t.sessions meta.flow_id _ (counted-small s meta now h) i.small in
    emit_if-Inv _ _ _ (record { few = ground (arith, p.1); queued = i.queued; small = p.0 })

opened-small :
    (t : Tracker) (meta : PacketMeta) (now : ℕ)
    → length (opened t meta now).payload_samples ≤ max_samples
unfolding opened
opened-small t meta now = omega arith

track-Inv : (t : Tracker) (meta : PacketMeta) (now : ℕ) → Inv t → Inv (track t meta now)
unfolding track
track-Inv t meta now i = elim (Bool-cases (leb max_sessions (length t.sessions))) [
  | inl e ↦ rw (e) i
  | inr e ↦
      let room : length t.sessions < max_sessions = ground arith in
      elim (Option-cases (find_session t.sessions meta.flow_id)) [
        | inl f ↦
            rw (e, f)
              (stored-Inv _ meta _ now (emit-Inv t _ i)
                (subst (λ ss. length ss < max_sessions) (sym (emit-sessions t _)) room)
                (opened-small t meta now))
        | inr f ↦
            rw (e, f.1)
              (stored-Inv t meta f.0 now i room
                (find_session-small t.sessions meta.flow_id f.0 i.small f.1))
      ]
]

report_idle-Inv :
    (t : Tracker) (ss : List (ℕ × Session)) (now : ℕ) → Inv t → Inv (report_idle t ss now)
unfolding report_idle
report_idle-Inv t [] now i = i
report_idle-Inv t ((k, s) ∷ ss) now i =
    report_idle-Inv (if is_idle s now then emit t (event_of session_expired k now) else t) ss now
      (emit_if-Inv (is_idle s now) t (event_of session_expired k now) i)

active-IsSmall :
    (ss : List (ℕ × Session)) (now : ℕ)
    → All IsSmall ss
    → All IsSmall (active ss now) × (length (active ss now) ≤ length ss)
unfolding active
active-IsSmall [] now a = (tt, omega arith)
active-IsSmall ((k, s) ∷ ss) now (a, rest) = ground (arith, active-IsSmall ss now rest)

find_session-active :
    (ss : List (ℕ × Session)) (id now : ℕ) (s : Session)
    → find_session ss id ≡ some s
    → is_idle s now ≡ false
    → find_session (active ss now) id ≡ some s
unfolding find_session active
find_session-active [] id now s e f = absurd (ground arith)
find_session-active ((k, x) ∷ ss) id now s e f = ground (arith, find_session-active ss id now s)

cleanup-Inv : (t : Tracker) (now : ℕ) → Inv t → Inv (cleanup_expired_sessions t now)
unfolding cleanup_expired_sessions
cleanup-Inv t now i =
    let a = active-IsSmall t.sessions now i.small in
    record { few = ground arith; queued = (report_idle-Inv t t.sessions now i).queued; small = a.0 }

process_meta-Inv :
    {W : Type 0} (K : KernelMaps W) (m : Manager W) (t : Tracker) (meta : PacketMeta) (now : ℕ)
    → Inv t
    → Inv (process_meta K m t meta now)
unfolding process_meta
process_meta-Inv K m t meta now i = elim (Bool-cases (length meta.src_ip == 0)) [
  | inl e ↦ rw (e) i
  | inr e ↦ elim (Bool-cases (is_redirected (is_blocked_ipv4 K m now meta.src_ip))) [
    | inl f ↦ rw (e, f) (track-Inv t meta now i)
    | inr f ↦ rw (e, f) i
  ]
]

tail-le : {A : Type 0} (xs : List A) → length (tail xs) ≤ length xs
unfolding tail
tail-le [] = omega arith
tail-le (x ∷ xs) = omega arith

happens-Inv :
    {W : Type 0} (K : KernelMaps W) (t : Tracker) (hs : List (Manager W × Happening))
    → Inv t
    → Inv (happens K t hs)
unfolding happens set_active_honeypot received
happens-Inv K t [] i = i
happens-Inv K t ((m, packet_arrives meta now) ∷ hs) i =
    happens-Inv K (process_meta K m t meta now) hs (process_meta-Inv K m t meta now i)
happens-Inv K t ((m, cleanup_ticks now) ∷ hs) i =
    happens-Inv K (cleanup_expired_sessions t now) hs (cleanup-Inv t now i)
happens-Inv K t ((m, honeypot_rotates id name) ∷ hs) i =
    happens-Inv K (set_active_honeypot t id name) hs
      (record { few = i.few; queued = i.queued; small = i.small })
happens-Inv K t ((m, event_is_received) ∷ hs) i =
    happens-Inv K (received t) hs (record {
      few = i.few;
      queued = ground (arith, tail-le t.event_ch, i.queued);
      small = i.small;
    })

-- Whatever happens to a new tracker, it holds at most 65,536 sessions, each of them at most 16
-- samples, and its channel at most 4,096 events.
pub happens-bounded :
    {W : Type 0} (K : KernelMaps W) (hs : List (Manager W × Happening))
    → (length (happens K new_tracker hs).sessions ≤ max_sessions)
      × (length (happens K new_tracker hs).event_ch ≤ event_ch_cap)
      × All IsSmall (happens K new_tracker hs).sessions
unfolding new_tracker
happens-bounded K hs =
    let i =
      happens-Inv K new_tracker hs
        (record { few = omega arith; queued = omega arith; small = tt }) in
    (i.few, i.queued, i.small)

-- A clean-up leaves a session that has had a packet in the last five minutes as it was.
get_session-cleanup :
    (t : Tracker) (id now : ℕ) (s : Session)
    → get_session t id ≡ some s
    → is_idle s now ≡ false
    → get_session (cleanup_expired_sessions t now) id ≡ some s
unfolding get_session cleanup_expired_sessions
get_session-cleanup t id now s e f = find_session-active t.sessions id now s e f
