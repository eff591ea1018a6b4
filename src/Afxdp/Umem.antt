-- ===== src/Afxdp/Umem.antt =====
-- The memory that the kernel fills with packets, control-plane/internal/afxdp/umem.go. The system
-- calls are a parameter. A slice outside of the memory is `none`, where the code would panic.
pub mod Frames
pub mod Created
use Prim.Native.Nat.{bit_and}
use falx_v.Base.Bytes.{slice}
use falx_v.Base.{
  ℕ, zero, suc, ◌+◌, ◌-◌, ◌*◌, ◌%◌, ◌^◌, Bool, true, false, not, ◌&&◌, ◌||◌, List, [], ◌∷◌, ◌++◌,
  Option, none, some, ltb, leb, ◌==◌, if◌then◌else◌, length,
}

abbrev pub frame_size_2k : ℕ
frame_size_2k = 2_048

abbrev pub frame_size_4k : ℕ
frame_size_4k = 4_096

abbrev pub frame_headroom : ℕ
frame_headroom = 256

pub record Umem : Type 0 where
  pub mem : List ℕ
  pub frame_size : ℕ
  pub num_frames : ℕ
  pub fd : ℕ
  pub free_frames : List ℕ

pub data UmemError : Type 0 where
  frames_not_power_of_two bad_frame_size mmap_failed socket_failed register_failed : UmemError

pub data UmemResult : Type 0 where
  created : Umem → UmemResult
  refused : UmemError → UmemResult

-- The mapping of so many bytes, a socket, and the registration of the memory with it.
pub record Calls : Type 0 where
  pub mmap : ℕ → Option (List ℕ)
  pub socket : Option ℕ
  pub register : (fd total_size frame_size headroom : ℕ) → Bool

-- The offsets of `k` frames from the frame `i` on.
unfoldable pub offsets : (k i frame_size : ℕ) → List ℕ
offsets zero i frame_size = []
offsets (suc k) i frame_size = i * frame_size ∷ offsets k (i + 1) frame_size

-- The pool of a registered memory.
unfoldable pub registered : Calls → ℕ → ℕ → List ℕ → UmemResult
registered C num_frames frame_size mem = elim C.socket [
  | none ↦ refused socket_failed
  | some fd ↦
      if C.register fd (num_frames * frame_size) frame_size frame_headroom
      then created (record {
        mem = mem;
        frame_size = frame_size;
        num_frames = num_frames;
        fd = fd;
        free_frames = offsets num_frames 0 frame_size;
      })
      else refused register_failed
]

unfoldable pub mapping : Calls → ℕ → ℕ → UmemResult
mapping C num_frames frame_size = elim (C.mmap (num_frames * frame_size)) [
  | none ↦ refused mmap_failed
  | some mem ↦ registered C num_frames frame_size mem
]

unfoldable pub new_umem : Calls → ℕ → ℕ → UmemResult
new_umem C num_frames frame_size =
    if num_frames == 0 || not (bit_and num_frames (num_frames - 1) == 0)
    then refused frames_not_power_of_two
    else if not (frame_size == frame_size_2k) && not (frame_size == frame_size_4k)
    then refused bad_frame_size
    else mapping C num_frames frame_size

-- The bytes of the frame behind its headroom.
unfoldable pub frame_at : Umem → ℕ → Option (List ℕ)
frame_at u offset =
    let start = (offset + frame_headroom) % 2 ^ 64 in
    let end = (offset + u.frame_size) % 2 ^ 64 in
    if leb start end then slice u.mem start (end - start) else none

unfoldable pub alloc_frame : Umem → Umem × ℕ × Bool
alloc_frame u = elim u.free_frames [
  | [] ↦ (u, 0, false)
  | desc ∷ rest ↦ (record u { free_frames = rest }, desc, true)
]

unfoldable pub free_frame : Umem → ℕ → Umem
free_frame u offset =
    if ltb (length u.free_frames) u.num_frames
    then record u { free_frames = u.free_frames ++ offset ∷ [] }
    else u

unfoldable pub available_frames : Umem → ℕ
available_frames u = length u.free_frames
