-- ===== src/Distributed/Layers.antt =====
-- The split of a model's layers among workers: `initializeTensorParallelism`, and the chain of
-- stages: `initializePipelineParallelism`.
use infernet_protocol.Common.{
  ℕ, ◌+◌, ◌-◌, ◌*◌, ◌/◌, ◌≤◌, ◌<◌, min, ◌≡◌, ◌↔◌, refl, none, some, List, String, length, get_elem?,
  get_elem?-some, arith,
}
use infernet_protocol.Distributed.State.{JobConfig, TensorConfig}
use infernet_protocol.Distributed.Assign.{ceil_div, or_default, tensor_config, pipeline_config}

-- A worker computes the layers from its first to its last, both included.
abbrev pub Covers : TensorConfig → ℕ → Type 0
Covers t l = (t.start_layer ≤ l) × (l ≤ t.end_layer)

-- The number of layers of the model.
abbrev pub layers : JobConfig → ℕ
layers cfg = or_default cfg.model_layers 32

ceil_div-pos : (n w : ℕ) → 0 < n → 0 < w → 0 < ceil_div n w
unfolding ceil_div
ceil_div-pos n w hn hw = grind arith

ceil_div-enough : (n w : ℕ) → 0 < w → n ≤ ceil_div n w * w
unfolding ceil_div
ceil_div-enough n w hw = grind arith

block-lt : (l n p w : ℕ) → 0 < p → l < n → n ≤ p * w → l / p < w
block-lt l n p w hp hl h = grind arith

block_holds :
    (l n p : ℕ) → 0 < p → l < n → (l / p * p ≤ l) × (l ≤ min ((l / p + 1) * p - 1) (n - 1))
block_holds l n p hp hl = (grind arith, grind arith)

block_unique : (l n p j : ℕ) → 0 < p → j * p ≤ l → l ≤ min ((j + 1) * p - 1) (n - 1) → j ≡ l / p
block_unique l n p j hp lo hi = grind arith

layers-pos : (cfg : JobConfig) → 0 < layers cfg
layers-pos cfg = ground arith

-- Every layer of the model is computed by exactly one of the workers, if there is a worker at all.
pub tensor_config-partition :
    (cfg : JobConfig) (w l : ℕ)
    → 0 < w
    → l < layers cfg
    → (i : ℕ) × (i < w) × ((j : ℕ) → Covers (tensor_config cfg w j) l ↔ (j ≡ i))
unfolding tensor_config
tensor_config-partition cfg w l hw hl =
    let n = layers cfg in
    let p = ceil_div n w in
    let hp = ceil_div-pos n w (layers-pos cfg) hw in
    (
      l / p,
      block-lt l n p w hp hl (ceil_div-enough n w hw),
      λ j. (λ c. block_unique l n p j hp c.0 c.1, λ same. rw same (block_holds l n p hp hl)),
    )

-- Where `ceil(layers / workers)` layers each are used up before the last worker, as with 5 layers
-- and 4 workers, the workers beyond them get a range whose end lies before its start: no layer.
tensor_config-idle :
    (cfg : JobConfig) (w i : ℕ)
    → layers cfg ≤ i * ceil_div (layers cfg) w
    → (tensor_config cfg w i).end_layer < (tensor_config cfg w i).start_layer
unfolding tensor_config
tensor_config-idle cfg w i h = omega (arith, layers-pos cfg)

-- The stages form one chain in the order of the workers: of two neighbours each names the other,
-- the first has nobody before it and the last nobody after it.
pipeline_config-chain :
    (cfg : JobConfig) (ws : List String) (i : ℕ)
    → i + 1 < length ws
    → ((pipeline_config cfg ws i).next_worker_id ≡ get_elem? ws (i + 1))
      × ((pipeline_config cfg ws (i + 1)).prev_worker_id ≡ get_elem? ws i)
      × ((pipeline_config cfg ws 0).prev_worker_id ≡ none)
      × ((pipeline_config cfg ws (length ws - 1)).next_worker_id ≡ none)
      × ((a : String) × (get_elem? ws (i + 1) ≡ some a))
unfolding pipeline_config
pipeline_config-chain cfg ws i h =
    let back : i + 1 - 1 ≡ i = omega arith in
    (ground arith, rw back (ground arith), refl, ground arith, get_elem?-some ws (i + 1) h)
