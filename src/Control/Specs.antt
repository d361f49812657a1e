-- ===== src/Control/Specs.antt =====
-- apps/web/lib/data/node-api.js: `sanitizeSpecs`, which keeps of a node's hardware what routing
-- needs. `toLowerCase` and `slice` of the language are the parameters of `Texts`.
use infernet_protocol.Common.{
  ℕ, ◌*◌, ltb, ◌==◌, if◌then◌else◌, Bool, Option, none, some, List, [], ◌∷◌, String, str_eq, length,
  take, any,
}
use infernet_protocol.Common.Js.{
  pos, Js, undefined, num, str, arr, obj, Items, nil, cons, get_field,
}
use infernet_protocol.Control.Tables.{Gpu, CoarseSpecs}

pub record Texts : Type 0 where
  pub to_lower_case : String → String
  -- `text.slice(0, n)`
  pub slice : ℕ → String → String

abbrev pub max_specs_gpus : ℕ
max_specs_gpus = 16

abbrev pub allowed_vram_tiers : List String
allowed_vram_tiers = "<8gb" ∷ "8-16gb" ∷ "16-24gb" ∷ "24-48gb" ∷ ">=48gb" ∷ "unknown" ∷ []

abbrev pub known_vendors : List String
known_vendors = "nvidia" ∷ "amd" ∷ "apple" ∷ "intel" ∷ []

abbrev pub member_of : List String → String → Bool
member_of l x = any (str_eq x) l

-- `vramTier` of a finite number
abbrev pub tier_of : ℕ → String
tier_of mb =
    if mb == 0
    then "unknown"
    else if ltb mb (8 * 1024)
    then "<8gb"
    else if ltb mb (16 * 1024)
    then "8-16gb"
    else if ltb mb (24 * 1024)
    then "16-24gb"
    else if ltb mb (48 * 1024)
    then "24-48gb"
    else ">=48gb"

unfoldable pub vram_tier : Js → String
vram_tier (num (pos mb)) = tier_of mb
vram_tier _ = "unknown"

abbrev pub items : Items → List Js
items nil = []
items (cons v vs) = v ∷ items vs

abbrev pub array : Js → List Js
array (arr vs) = items vs
array _ = []

abbrev pub add_gpu : Option Gpu → List Gpu → List Gpu
add_gpu none gpus = gpus
add_gpu (some g) gpus = g ∷ gpus

module _ (t : Texts) where
  abbrev pub vendor_of : Js → String
  vendor_of (str v) =
      let low = t.to_lower_case v in if member_of known_vendors low then low else "unknown"
  vendor_of _ = "unknown"

  -- The tier that the node states, if it is an allowed one, or the tier of its memory.
  abbrev pub stated_tier : Js → Js → String
  stated_tier (str v) mb =
      let low = t.to_lower_case v in if member_of allowed_vram_tiers low then low else vram_tier mb
  stated_tier _ mb = vram_tier mb

  abbrev pub model_of : Js → Option String
  model_of (str m) = some (t.slice 64 m)
  model_of _ = none

  -- The properties that `sanitizeGpu` reads.
  abbrev pub gpu_of : Js → Js → Js → Js → Gpu
  gpu_of vendor tier mb model = record {
    vendor = vendor_of vendor;
    vram_tier = stated_tier tier mb;
    model = model_of model;
  }

  -- `sanitizeGpu`; an array is an object with none of the properties.
  unfoldable pub sanitize_gpu : Js → Option Gpu
  sanitize_gpu (obj fs) = some (
      gpu_of (get_field "vendor" fs) (get_field "vram_tier" fs) (get_field "vram_mb" fs)
        (get_field "model" fs))
  sanitize_gpu (arr vs) = some (gpu_of undefined undefined undefined undefined)
  sanitize_gpu _ = none

  -- `gpus.map(sanitizeGpu).filter(Boolean)`
  unfoldable pub sanitize_gpus : List Js → List Gpu
  sanitize_gpus [] = []
  sanitize_gpus (v ∷ vs) = add_gpu (sanitize_gpu v) (sanitize_gpus vs)

  abbrev pub coarse_of : Js → CoarseSpecs
  coarse_of listed =
      let gpus = take max_specs_gpus (array listed) in
      record { gpus = sanitize_gpus gpus; gpu_count = length gpus }

  -- `sanitizeSpecs`
  unfoldable pub sanitize_specs : Js → Option CoarseSpecs
  sanitize_specs (obj fs) = some (coarse_of (get_field "gpus" fs))
  sanitize_specs (arr vs) = some (coarse_of undefined)
  sanitize_specs _ = none
