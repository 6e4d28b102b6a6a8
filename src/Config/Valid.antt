-- ===== src/Config/Valid.antt =====
-- What validate_config of src/config.cpp accepts.
use Prim.Native.String.{String}
use scrig.Base.{
  ℕ, ◌<◌, ◌≤◌, Bool, true, false, Bool-cases, ◌||◌, not, ltb, ◌==◌, ◌≡◌, ◌⊎◌, inl, inr, refl, arith,
}
use scrig.Base.Bytes.{Bytes, bytes_eq, bytes_eq_iff, codes}
use scrig.Base.Fault.{Result, ok, throw, ◌>>=◌}
use scrig.Types.{PublicKey}
use scrig.Base36.{public_key_from_base36}
use scrig.Config.{Config, require, or_throw, validate_config}

-- A configuration that the program can run with.
pub record IsUsable (config : Config) : Type 0 where
  pub wallet : (key : PublicKey) × (public_key_from_base36 config.wallet_address ≡ ok key)
  pub node_port : 0 < config.node_port
  pub pool_port : 0 < config.pool_port
  pub threads : 0 < config.threads
  pub mode : (config.mode ≡ codes "solo") ⊎ (config.mode ≡ codes "pool")
  pub pipeline_batch : config.randomx_pipeline_batch ≤ 128

guarded :
    (test : Bool) (message : String) (rest : Result (Unit {0}))
    → (require test message >>= λ _. rest) ≡ ok tt
    → (test ≡ true) × (rest ≡ ok tt)
guarded true message rest h = (refl, h)
guarded false message rest h = absurd (cc h)

caught :
    {A : Type 0} (r : Result A) (message : String) (rest : Result (Unit {0}))
    → (or_throw r message >>= λ _. rest) ≡ ok tt
    → ((a : A) × (r ≡ ok a)) × (rest ≡ ok tt)
caught (ok a) message rest h = ((a, refl), h)
caught (throw error) message rest h = absurd (cc h)

last_guard : (test : Bool) (message : String) → require test message ≡ ok tt → test ≡ true
last_guard true message h = refl
last_guard false message h = absurd (cc h)

positive : (n : ℕ) → not (n == 0) ≡ true → 0 < n
positive n h = ground arith

at_most : (n : ℕ) → not (ltb 128 n) ≡ true → n ≤ 128
at_most n h = ground arith

one_of : (text a b : Bytes) → (bytes_eq text a || bytes_eq text b) ≡ true → (text ≡ a) ⊎ (text ≡ b)
one_of text a b h = elim (Bool-cases (bytes_eq text a)) [
  | inl e ↦ inl ((bytes_eq_iff text a).0 e)
  | inr e ↦ inr ((bytes_eq_iff text b).0 (rw e at h))
]

-- A configuration that passes names a wallet that decodes to a key, ports and a number of threads
-- that are not 0, a mode that is solo or pool, and a batch of at most 128.
pub validate_config-IsUsable : (config : Config) → validate_config config ≡ ok tt → IsUsable config
unfolding validate_config
validate_config-IsUsable config h =
    let (_, h1) = guarded _ _ _ h in
    let (wallet, h2) = caught _ _ _ h1 in
    let (_, h3) = guarded _ _ _ h2 in
    let (node_port, h4) = guarded _ _ _ h3 in
    let (_, h5) = guarded _ _ _ h4 in
    let (pool_port, h6) = guarded _ _ _ h5 in
    let (threads, h7) = guarded _ _ _ h6 in
    let (mode, h8) = guarded _ _ _ h7 in
    record {
      wallet = wallet;
      node_port = positive config.node_port node_port;
      pool_port = positive config.pool_port pool_port;
      threads = positive config.threads threads;
      mode = one_of config.mode (codes "solo") (codes "pool") mode;
      pipeline_batch = at_most config.randomx_pipeline_batch (last_guard _ _ h8);
    }
