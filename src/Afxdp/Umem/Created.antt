-- ===== src/Afxdp/Umem/Created.antt =====
-- The frames of a memory that was created: each lies in it, and has one owner.
use Prim.Native.Nat.{bit_and}
use mathlib.Core.Path.{subst}
use falx_v.Base.Bytes.{IsSome, slice-le}
use falx_v.Base.{
  ℕ, ◌+◌, ◌-◌, ◌*◌, ◌%◌, ◌^◌, ◌≤◌, ◌<◌, ◌≡◌, ◌⊎◌, refl, true, false, List, some, leb, ◌==◌, length,
  Bool-cases, Option-cases, inl, inr, arith, sym, ap, ◌∙◌, not, ◌&&◌, ◌||◌,
}
use falx_v.Afxdp.Umem.{
  Umem, Calls, UmemResult, created, refused, frame_size_2k, frame_size_4k, frame_headroom, offsets,
  registered, mapping, new_umem, frame_at,
}
use falx_v.Afxdp.Umem.Frames.{
  count, count-offsets, offsets-within, length-offsets, System, Reachable, Inv, Reachable-Inv,
}

-- What a memory that was created is made of.
record Made (num_frames frame_size : ℕ) (u : Umem) : Type 0 where
  size : (frame_size ≡ frame_size_2k) ⊎ (frame_size ≡ frame_size_4k)
  frame_size_eq : u.frame_size ≡ frame_size
  num_frames_eq : u.num_frames ≡ num_frames
  free_eq : u.free_frames ≡ offsets num_frames 0 frame_size
  bytes : length u.mem ≡ num_frames * frame_size

abbrev MadeBy : ℕ → ℕ → UmemResult → Type 0
MadeBy num_frames frame_size (created u) = Made num_frames frame_size u
MadeBy num_frames frame_size (refused e) = Unit

registered-MadeBy :
    (C : Calls) (num_frames frame_size : ℕ) (mem : List ℕ)
    → (frame_size ≡ frame_size_2k) ⊎ (frame_size ≡ frame_size_4k)
    → length mem ≡ num_frames * frame_size
    → MadeBy num_frames frame_size (registered C num_frames frame_size mem)
unfolding registered
registered-MadeBy C num_frames frame_size mem size bytes = elim (Option-cases C.socket) [
  | inl e ↦ rw e tt
  | inr (fd, e) ↦
      elim (Bool-cases (C.register fd (num_frames * frame_size) frame_size frame_headroom)) [
        | inl f ↦
            rw (e, f)
              (record {
                size = size;
                frame_size_eq = refl;
                num_frames_eq = refl;
                free_eq = refl;
                bytes = bytes;
              })
        | inr f ↦ rw (e, f) tt
      ]
]

mapping-MadeBy :
    (C : Calls) (num_frames frame_size : ℕ)
    → (frame_size ≡ frame_size_2k) ⊎ (frame_size ≡ frame_size_4k)
    → ((n : ℕ) (bytes : List ℕ) → C.mmap n ≡ some bytes → length bytes ≡ n)
    → MadeBy num_frames frame_size (mapping C num_frames frame_size)
unfolding mapping
mapping-MadeBy C num_frames frame_size size law =
    elim (Option-cases (C.mmap (num_frames * frame_size))) [
      | inl e ↦ rw (mapping, e) tt
      | inr (mem, e) ↦
          rw (mapping, e)
            (registered-MadeBy C num_frames frame_size mem size
              (law (num_frames * frame_size) mem e))
    ]

size_cases :
    (n : ℕ)
    → (not (n == frame_size_2k) && not (n == frame_size_4k)) ≡ false
    → (n ≡ frame_size_2k) ⊎ (n ≡ frame_size_4k)
size_cases n h = ground arith

mapped-MadeBy :
    (C : Calls) (num_frames frame_size : ℕ)
    → ((n : ℕ) (bytes : List ℕ) → C.mmap n ≡ some bytes → length bytes ≡ n)
    → MadeBy num_frames frame_size (new_umem C num_frames frame_size)
unfolding new_umem
mapped-MadeBy C num_frames frame_size law =
    elim (Bool-cases (num_frames == 0 || not (bit_and num_frames (num_frames - 1) == 0))) [
      | inl p ↦ rw p tt
      | inr p ↦
          elim (Bool-cases
            (not (frame_size == frame_size_2k) && not (frame_size == frame_size_4k))) [
              | inl q ↦ rw (p, q) tt
              | inr q ↦
                  rw (p, q) (mapping-MadeBy C num_frames frame_size (size_cases frame_size q) law)
            ]
    ]

created-Made :
    (C : Calls) (num_frames frame_size : ℕ) (u : Umem)
    → ((n : ℕ) (bytes : List ℕ) → C.mmap n ≡ some bytes → length bytes ≡ n)
    → new_umem C num_frames frame_size ≡ created u
    → Made num_frames frame_size u
created-Made C num_frames frame_size u law e =
    subst (MadeBy num_frames frame_size) e (mapped-MadeBy C num_frames frame_size law)

frame_at-IsSome :
    (v : Umem) (x : ℕ)
    → frame_headroom ≤ v.frame_size
    → x + v.frame_size ≤ length v.mem
    → length v.mem < 2 ^ 64
    → IsSome (frame_at v x)
unfolding frame_at
frame_at-IsSome v x h w b =
    let start : (x + frame_headroom) % 2 ^ 64 ≡ x + frame_headroom = omega arith in
    let end : (x + v.frame_size) % 2 ^ 64 ≡ x + v.frame_size = omega arith in
    let ordered : leb (x + frame_headroom) (x + v.frame_size) ≡ true = ground arith in
    rw
      (
        start,
        end,
        ordered,
        slice-le v.mem (x + frame_headroom) (x + v.frame_size - (x + frame_headroom)) (omega arith),
      )
      (_, refl)

size_bound :
    (num_frames n : ℕ)
    → num_frames < 2 ^ 32
    → (n ≡ frame_size_2k) ⊎ (n ≡ frame_size_4k)
    → (num_frames * n < 2 ^ 64) × (frame_headroom ≤ n)
size_bound num_frames n h (inl e) = rw e (omega arith, omega arith)
size_bound num_frames n h (inr e) = rw e (omega arith, omega arith)

length-free_frames :
    (num_frames n : ℕ) (u : Umem) → Made num_frames n u → length u.free_frames ≡ u.num_frames
length-free_frames num_frames n u m =
    ap length m.free_eq ∙ length-offsets num_frames 0 n ∙ sym m.num_frames_eq

-- A frame that is held, in terms of the invariant.
held-facts :
    (num_frames n : ℕ) (u : Umem) (s : System) (x : ℕ)
    → num_frames < 2 ^ 32
    → Made num_frames n u
    → Inv u s
    → 1 ≤ count x s.held
    → IsSome (frame_at s.umem x)
      × (count x s.held ≡ 1)
      × (count x s.umem.free_frames ≡ 0)
      × (length s.umem.free_frames + length s.held ≡ num_frames)
held-facts num_frames n u s x h m i one =
    let (small, headroom) = size_bound num_frames n h m.size in
    let counted = i.each x ∙ ap (count x) m.free_eq in
    let once = count-offsets num_frames 0 n x (omega (arith, headroom)) in
    let within = offsets-within num_frames 0 n x (omega (arith, counted, one)) in
    let bytes = ap length i.mem ∙ m.bytes in
    let size = i.size ∙ m.frame_size_eq in
    (
      frame_at-IsSome s.umem x (omega (arith, size, headroom)) (omega (arith, size, bytes, within))
          (omega (arith, bytes, small)),
      omega (arith, counted, once, one),
      omega (arith, counted, once, one),
      i.total ∙ m.num_frames_eq,
    )

-- Where the mapping gives as many bytes as it is asked for: whatever frames are taken from the pool of
-- a memory of fewer than 2^32 frames, and given back by who holds them, each frame that is held lies
-- within the memory, is held once and is not in the pool, and no frame is lost.
pub held-frame_at :
    (C : Calls) (num_frames frame_size : ℕ) (u : Umem) (s : System) (x : ℕ)
    → ((n : ℕ) (bytes : List ℕ) → C.mmap n ≡ some bytes → length bytes ≡ n)
    → num_frames < 2 ^ 32
    → new_umem C num_frames frame_size ≡ created u
    → Reachable u s
    → 1 ≤ count x s.held
    → IsSome (frame_at s.umem x)
      × (count x s.held ≡ 1)
      × (count x s.umem.free_frames ≡ 0)
      × (length s.umem.free_frames + length s.held ≡ num_frames)
held-frame_at C num_frames frame_size u s x law h e r one =
    let made = created-Made C num_frames frame_size u law e in
    held-facts num_frames frame_size u s x h made
      (Reachable-Inv u s (length-free_frames num_frames frame_size u made) r) one
