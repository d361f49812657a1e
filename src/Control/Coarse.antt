-- ===== src/Control/Coarse.antt =====
-- What `sanitizeSpecs` of apps/web/lib/data/node-api.js lets through of a node's hardware.
use infernet_protocol.Common.{
  ℕ, suc, ◌≤◌, ◌≡◌, refl, subst, Bool, true, false, ◌||◌, Option, none, some, List, [], ◌∷◌, String,
  str_eq, length, take, All, ltb, ◌==◌, if_rule, if_known_rule, length-take, arith,
}
use infernet_protocol.Common.Js.{
  pos, negsuc, Js, undefined, null, bool, num, str, arr, obj, get_field,
}
use infernet_protocol.Control.Tables.{Gpu, CoarseSpecs}
use infernet_protocol.Control.Specs.{
  Texts, max_specs_gpus, allowed_vram_tiers, known_vendors, member_of, vram_tier, array, vendor_of,
  stated_tier, sanitize_gpu, add_gpu, sanitize_gpus, coarse_of, sanitize_specs,
}

-- A vendor and a tier of the two fixed lists.
abbrev pub IsKnown : Gpu → Type 0
IsKnown g =
    (member_of ("unknown" ∷ known_vendors) g.vendor ≡ true)
    × (member_of allowed_vram_tiers g.vram_tier ≡ true)

pub record IsCoarse (c : CoarseSpecs) : Type 0 where
  pub counted : length c.gpus ≤ c.gpu_count
  pub few : c.gpu_count ≤ max_specs_gpus
  pub known : All IsKnown c.gpus

abbrev IsTier : String → Type 0
IsTier x = member_of allowed_vram_tiers x ≡ true

vram_tier-IsTier : (v : Js) → IsTier (vram_tier v)
unfolding vram_tier
vram_tier-IsTier (num (pos mb)) = if_rule IsTier (mb == 0) _ _ refl (
    if_rule IsTier (ltb mb 8192) _ _ refl (
      if_rule IsTier (ltb mb 16384) _ _ refl
        (if_rule IsTier (ltb mb 24576) _ _ refl (if_rule IsTier (ltb mb 49152) _ _ refl refl))))
vram_tier-IsTier (num (negsuc n)) = refl
vram_tier-IsTier undefined = refl
vram_tier-IsTier null = refl
vram_tier-IsTier (bool b) = refl
vram_tier-IsTier (str s) = refl
vram_tier-IsTier (arr vs) = refl
vram_tier-IsTier (obj fs) = refl

or_true : (a b : Bool) → b ≡ true → (a || b) ≡ true
or_true true b h = refl
or_true false b h = h

add_gpu-IsKnown :
    (o : Option Gpu) (gpus : List Gpu) (n : ℕ)
    → ((g : Gpu) → o ≡ some g → IsKnown g)
    → length gpus ≤ n
    → All IsKnown gpus
    → (length (add_gpu o gpus) ≤ suc n) × All IsKnown (add_gpu o gpus)
add_gpu-IsKnown none gpus n h l k = (omega arith, k)
add_gpu-IsKnown (some g) gpus n h l k = (omega arith, (h g refl, k))

module _ (t : Texts) where
  stated_tier-IsTier : (tier mb : Js) → IsTier (stated_tier t tier mb)
  stated_tier-IsTier (str v) mb =
      let low = t.to_lower_case v in
      if_known_rule IsTier (member_of allowed_vram_tiers low) low (vram_tier mb) (λ e. e)
        (vram_tier-IsTier mb)
  stated_tier-IsTier undefined mb = vram_tier-IsTier mb
  stated_tier-IsTier null mb = vram_tier-IsTier mb
  stated_tier-IsTier (bool b) mb = vram_tier-IsTier mb
  stated_tier-IsTier (num n) mb = vram_tier-IsTier mb
  stated_tier-IsTier (arr vs) mb = vram_tier-IsTier mb
  stated_tier-IsTier (obj fs) mb = vram_tier-IsTier mb

  abbrev IsVendor : String → Type 0
  IsVendor x = member_of ("unknown" ∷ known_vendors) x ≡ true

  vendor_of-IsVendor : (v : Js) → IsVendor (vendor_of t v)
  vendor_of-IsVendor (str v) =
      let low = t.to_lower_case v in
      if_known_rule IsVendor (member_of known_vendors low) low "unknown"
        (λ e. or_true (str_eq low "unknown") _ e) refl
  vendor_of-IsVendor undefined = refl
  vendor_of-IsVendor null = refl
  vendor_of-IsVendor (bool b) = refl
  vendor_of-IsVendor (num n) = refl
  vendor_of-IsVendor (arr vs) = refl
  vendor_of-IsVendor (obj fs) = refl

  sanitize_gpu-IsKnown : (v : Js) {g : Gpu} → sanitize_gpu t v ≡ some g → IsKnown g
  unfolding sanitize_gpu
  sanitize_gpu-IsKnown (obj fs) h =
      subst (λ (o : Option Gpu). elim o [ none ↦ Unit | some g ↦ IsKnown g ]) h
        (
          vendor_of-IsVendor (get_field "vendor" fs),
          stated_tier-IsTier (get_field "vram_tier" fs) (get_field "vram_mb" fs),
        )
  sanitize_gpu-IsKnown (arr vs) h =
      subst (λ (o : Option Gpu). elim o [ none ↦ Unit | some g ↦ IsKnown g ]) h
        (vendor_of-IsVendor undefined, stated_tier-IsTier undefined undefined)
  sanitize_gpu-IsKnown undefined h = ground arith
  sanitize_gpu-IsKnown null h = ground arith
  sanitize_gpu-IsKnown (bool b) h = ground arith
  sanitize_gpu-IsKnown (num n) h = ground arith
  sanitize_gpu-IsKnown (str x) h = ground arith

  sanitize_gpus-IsKnown :
      (vs : List Js) → (length (sanitize_gpus t vs) ≤ length vs) × All IsKnown (sanitize_gpus t vs)
  unfolding sanitize_gpus
  sanitize_gpus-IsKnown [] = (omega arith, tt)
  sanitize_gpus-IsKnown (v ∷ vs) =
      let (few, known) = sanitize_gpus-IsKnown vs in
      add_gpu-IsKnown (sanitize_gpu t v) _ (length vs) (λ g e. sanitize_gpu-IsKnown v e) few known

  coarse_of-IsCoarse : (v : Js) → IsCoarse (coarse_of t v)
  coarse_of-IsCoarse v = record {
    counted = (sanitize_gpus-IsKnown (take max_specs_gpus (array v))).0;
    few = omega (arith, length-take 16 (array v));
    known = (sanitize_gpus-IsKnown (take max_specs_gpus (array v))).1;
  }

  -- What the sanitizer keeps of any hardware that a node states: at most sixteen cards, as many
  -- entries at most as it counts, each with a vendor and a memory tier of the two fixed lists.
  pub sanitize_specs-IsCoarse :
      (specs : Js) {c : CoarseSpecs} → sanitize_specs t specs ≡ some c → IsCoarse c
  unfolding sanitize_specs
  sanitize_specs-IsCoarse (obj fs) h =
      subst (λ (o : Option CoarseSpecs). elim o [ none ↦ Unit | some c ↦ IsCoarse c ]) h
        (coarse_of-IsCoarse (get_field "gpus" fs))
  sanitize_specs-IsCoarse (arr vs) h =
      subst (λ (o : Option CoarseSpecs). elim o [ none ↦ Unit | some c ↦ IsCoarse c ]) h
        (coarse_of-IsCoarse undefined)
  sanitize_specs-IsCoarse undefined h = ground arith
  sanitize_specs-IsCoarse null h = ground arith
  sanitize_specs-IsCoarse (bool b) h = ground arith
  sanitize_specs-IsCoarse (num n) h = ground arith
  sanitize_specs-IsCoarse (str x) h = ground arith
