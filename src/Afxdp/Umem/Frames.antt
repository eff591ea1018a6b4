-- ===== src/Afxdp/Umem/Frames.antt =====
-- The frames of the pool and those that are taken from it, over any calls.
use mathlib.Core.Path.{subst}
use falx_v.Base.{
  ℕ, zero, suc, ◌+◌, ◌*◌, ◌≤◌, ◌<◌, ◌≡◌, refl, true, false, List, [], ◌∷◌, ◌++◌, ◌==◌,
  if◌then◌else◌, length, length-append, Bool-cases, List-cases, inl, inr, arith,
}
use falx_v.Afxdp.Umem.{Umem, offsets, alloc_frame, free_frame}

unfoldable pub count : ℕ → List ℕ → ℕ
count x [] = 0
count x (y ∷ ys) = (if y == x then 1 else 0) + count x ys

count-append : (x : ℕ) (xs ys : List ℕ) → count x (xs ++ ys) ≡ count x xs + count x ys
unfolding count
count-append x [] ys = omega arith
count-append x (y ∷ xs) ys = ground (arith, count-append x xs ys)

-- No offset of a frame stands before its place.
count-below : (k i n x : ℕ) → x < i * n → count x (offsets k i n) ≡ 0
unfolding count offsets
count-below zero i n x h = refl
count-below (suc k) i n x h = ground (arith, count-below k (i + 1) n x (omega arith))

pub count-offsets : (k i n x : ℕ) → 0 < n → count x (offsets k i n) ≤ 1
unfolding count offsets
count-offsets zero i n x h = omega arith
count-offsets (suc k) i n x h = elim (Bool-cases (i * n == x)) [
  | inl e ↦ ground (arith, count-below k (i + 1) n x (ground arith))
  | inr e ↦ ground (arith, count-offsets k (i + 1) n x h)
]

pub offsets-within : (k i n x : ℕ) → 1 ≤ count x (offsets k i n) → x + n ≤ i * n + k * n
unfolding count offsets
offsets-within zero i n x h = absurd (omega arith)
offsets-within (suc k) i n x h = elim (Bool-cases (i * n == x)) [
  | inl e ↦ ground arith
  | inr e ↦ let within = offsets-within k (i + 1) n x (ground arith) in omega arith
]

pub length-offsets : (k i n : ℕ) → length (offsets k i n) ≡ k
unfolding offsets
length-offsets zero i n = refl
length-offsets (suc k) i n = omega (arith, length-offsets k (i + 1) n)

-- The pool, and the frames that were taken from it and not given back.
pub record System : Type 0 where
  pub umem : Umem
  pub held : List ℕ

-- A frame is taken, or one that is held is given back.
pub data Step : System → System → Type 0 where
  allocates :
      (u : Umem) (held : List ℕ)
      → (alloc_frame u).2 ≡ true
      → Step
          (record { umem = u; held = held })
          (record { umem = (alloc_frame u).0; held = (alloc_frame u).1 ∷ held })
  frees :
      (u : Umem) (before after : List ℕ) (offset : ℕ)
      → Step
          (record { umem = u; held = before ++ offset ∷ after })
          (record { umem = free_frame u offset; held = before ++ after })

pub data Reachable (u : Umem) : System → Type 0 where
  starts : Reachable u (record { umem = u; held = [] })
  steps : {s t : System} → Reachable u s → Step s t → Reachable u t

-- Each frame of the memory is in the pool or held, once.
pub record Inv (u : Umem) (s : System) : Type 0 where
  pub mem : s.umem.mem ≡ u.mem
  pub size : s.umem.frame_size ≡ u.frame_size
  pub num : s.umem.num_frames ≡ u.num_frames
  pub total : length s.umem.free_frames + length s.held ≡ u.num_frames
  pub each : (x : ℕ) → count x s.umem.free_frames + count x s.held ≡ count x u.free_frames

alloc_frame-eq :
    (v : Umem) (d : ℕ) (rest : List ℕ)
    → v.free_frames ≡ d ∷ rest
    → alloc_frame v ≡ (record v { free_frames = rest }, d, true)
unfolding alloc_frame
alloc_frame-eq v d rest e = rw e refl

alloc_frame-empty : (v : Umem) → v.free_frames ≡ [] → (alloc_frame v).2 ≡ false
unfolding alloc_frame
alloc_frame-empty v e = rw e refl

free_frame-eq :
    (v : Umem) (offset : ℕ)
    → length v.free_frames < v.num_frames
    → free_frame v offset ≡ record v { free_frames = v.free_frames ++ offset ∷ [] }
unfolding free_frame
free_frame-eq v offset h = ground arith

allocated-Inv :
    (u v : Umem) (held : List ℕ) (d : ℕ) (rest : List ℕ)
    → v.free_frames ≡ d ∷ rest
    → Inv u (record { umem = v; held = held })
    → Inv u (record { umem = record v { free_frames = rest }; held = d ∷ held })
unfolding count
allocated-Inv u v held d rest e i = record {
  mem = i.mem;
  size = i.size;
  num = i.num;
  total = omega (arith, subst (λ l. length l + length held ≡ u.num_frames) e i.total);
  each = λ x.
      let before = subst (λ l. count x l + count x held ≡ count x u.free_frames) e (i.each x) in
      omega (arith, before);
}

freed-Inv :
    (u v : Umem) (before after : List ℕ) (offset : ℕ)
    → Inv u (record { umem = v; held = before ++ offset ∷ after })
    → Inv u (record { umem = free_frame v offset; held = before ++ after })
unfolding count
freed-Inv u v before after offset i =
    let n = length-append before (offset ∷ after) in
    rw (free_frame-eq v offset (omega (arith, i.total, i.num, n))) (record {
      mem = i.mem;
      size = i.size;
      num = i.num;
      total = omega (
        arith,
        i.total,
        n,
        length-append before after,
        length-append v.free_frames (offset ∷ []),
      );
      each = λ x. omega (
        arith,
        i.each x,
        count-append x before (offset ∷ after),
        count-append x before after,
        count-append x v.free_frames (offset ∷ []),
      );
    })

step-Inv : (u : Umem) (s t : System) → Step s t → Inv u s → Inv u t
step-Inv u s t (allocates v held e) i = elim (List-cases v.free_frames) [
  | inl f ↦ absurd (ground (arith, alloc_frame-empty v f))
  | inr (d, rest, f) ↦ rw (alloc_frame-eq v d rest f) (allocated-Inv u v held d rest f i)
]
step-Inv u s t (frees v before after offset) i = freed-Inv u v before after offset i

pub Reachable-Inv :
    (u : Umem) (s : System) → length u.free_frames ≡ u.num_frames → Reachable u s → Inv u s
unfolding count
Reachable-Inv u s h starts = record {
  mem = refl;
  size = refl;
  num = refl;
  total = omega (arith, h);
  each = λ x. omega arith;
}
Reachable-Inv u s h (steps {s = r} rs st) = step-Inv u r s st (Reachable-Inv u r h rs)
