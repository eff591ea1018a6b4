-- ===== src/Base/Dict.antt =====
-- Maps with texts as keys, as functions, and lists of texts.
use Prim.Native.String.{String}
use text.Mathlib.Text
use mathlib.Core.Option
use mathlib.Core.Bool.{Bool, false, ◌||◌}
use mathlib.Core.Option.{Option, none, some}
use mathlib.Core.List.{List, [], ◌∷◌}
use falx_v.Base.Tests.{if◌then◌else◌}

abbrev pub Dict : Type 0 → Type 0
Dict A = String → Option A

-- Texts compared.
abbrev pub same : String → String → Bool
same s t = Text.◌==◌ s t

-- Whether a text is in a list.
unfoldable pub among : List String → String → Bool
among [] t = false
among (x ∷ xs) t = let rest = among xs t in same t x || rest

module _ {A : Type 0} where
  abbrev pub empty : Dict A
  empty j = none

  unfoldable pub insert : String → A → Dict A → Dict A
  insert k v m j = if same k j then some v else m j

  -- The value behind a key changed in place.
  unfoldable pub adjust : String → (A → A) → Dict A → Dict A
  adjust k f m j = if same k j then Option.map f (m j) else m j
