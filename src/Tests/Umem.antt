-- ===== src/Tests/Umem.antt =====
-- A memory of two frames, of which one is taken.
use falx_v.Base.{
  ℕ, zero, suc, ◌+◌, ◌≤◌, ◌≡◌, refl, sym, ap, ◌∙◌, true, List, [], ◌∷◌, Option, none, some, length,
  arith,
}
use falx_v.Base.Bytes.{IsSome}
use falx_v.Control.Spsc.{zeros}
use falx_v.Afxdp.Umem.{
  Umem, Calls, created, offsets, mapping, registered, new_umem, alloc_frame, frame_at,
}
use falx_v.Afxdp.Umem.Frames.{count, System, starts, steps, allocates}
use falx_v.Afxdp.Umem.Created.{held-frame_at}

abbrev granted : Calls
granted = record {
  mmap = λ n. some (zeros n);
  socket = some 3;
  register = λ fd total_size frame_size headroom. true;
}

abbrev two_frames : Umem
two_frames = record {
  mem = zeros 4_096;
  frame_size = 2_048;
  num_frames = 2;
  fd = 3;
  free_frames = 0 ∷ 2_048 ∷ [];
}

length-zeros : (n : ℕ) → length (zeros n) ≡ n
unfolding zeros
length-zeros zero = refl
length-zeros (suc n) = omega (arith, length-zeros n)

length_of : Option (List ℕ) → ℕ
length_of none = 0
length_of (some bytes) = length bytes

granted-length : (n : ℕ) (bytes : List ℕ) → granted.mmap n ≡ some bytes → length bytes ≡ n
unfolding length_of
granted-length n bytes e = sym (ap length_of e) ∙ length-zeros n

two_frames-created : new_umem granted 2 2_048 ≡ created two_frames
unfolding new_umem mapping registered offsets
two_frames-created = refl

abbrev one_taken : System
one_taken = record { umem = (alloc_frame two_frames).0; held = (alloc_frame two_frames).1 ∷ [] }

taken : (alloc_frame two_frames).2 ≡ true
unfolding alloc_frame
taken = refl

one_held : 1 ≤ count 0 one_taken.held
unfolding alloc_frame count
one_held = omega arith

held-frame_at_example :
    IsSome (frame_at one_taken.umem 0)
    × (count 0 one_taken.held ≡ 1)
    × (count 0 one_taken.umem.free_frames ≡ 0)
    × (length one_taken.umem.free_frames + length one_taken.held ≡ 2)
held-frame_at_example =
    held-frame_at granted 2 2_048 two_frames one_taken 0 granted-length (omega arith)
      two_frames-created (steps starts (allocates two_frames [] taken)) one_held
