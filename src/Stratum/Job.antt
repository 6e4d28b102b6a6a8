-- ===== src/Stratum/Job.antt =====
-- StratumJob of include/scrig/stratum_client.hpp and the parse_ functions of src/stratum_client.cpp
-- that make one. An out-parameter with a Boolean result is an `Option`.
pub mod Accepted
use scrig.Base.{
  ℕ, zero, suc, ◌+◌, ◌-◌, ◌*◌, ◌%◌, ◌^◌, Bool, true, false, ◌&&◌, ◌||◌, not, Option, none, some,
  List, [], ◌∷◌, ◌++◌, length, foldl, replicate, leb, ltb, ◌==◌, if◌then◌else◌,
}
use scrig.Base.Bytes.{Bytes, codes, bytes_eq}
use scrig.Json.{
  ℤ, pos, negsuc, Doubles, JsonValue, null, bool, int64, uint64, double, string, array, object,
  JsonObject, empty, field, find_field,
}
use scrig.Codec.{elements}
use scrig.Stratum.{parse_hex}
use scrig.Stratum.Text.{
  find_string, find_object, parse_target_prefix_le, parse_target_prefix_be, distance_u64,
  difficulty_to_target_le, json_number_to_u64, json_number_to_double, assign,
}

pub record StratumJob : Type 0 where
  pub job_id : Bytes
  pub blob : Bytes
  pub nonce_offset : ℕ
  pub target_le : ℕ
  pub target_be : Bytes
  pub has_target_be : Bool
  pub height : ℕ
  pub clean_jobs : Bool

-- The bytes of a hexadecimal text that is there and not empty.
unfoldable pub find_hex : JsonObject → (key : Bytes) → Option Bytes
find_hex obj key = elim (find_string obj key) [
  | some text ↦ elim (parse_hex text) [ some (b ∷ bytes) ↦ some (b ∷ bytes) | _ ↦ none ]
  | none ↦ none
]

unfoldable pub find_uint64 : JsonObject → (key : Bytes) → Option ℕ
find_uint64 obj key = elim (find_field obj key) [ some (uint64 n) ↦ some n | _ ↦ none ]

-- Which end of a long target is meant: the one nearer to the advertised difficulty, or else the
-- one that a leading zero points to.
unfoldable pub choose_end : (diff_target : Option ℕ) → Bytes → ℕ
choose_end diff_target bytes =
    let candidate_le = parse_target_prefix_le bytes in
    let candidate_be = parse_target_prefix_be bytes in
    elim diff_target [
      | some target ↦
          if ltb (distance_u64 candidate_be target) (distance_u64 candidate_le target)
          then candidate_be
          else candidate_le
      | none ↦ elim bytes [
        | zero ∷ _ ↦ if candidate_be == 0 then candidate_le else candidate_be
        | _ ↦ candidate_le
      ]
    ]

-- A value that is not 0.
abbrev pub nonzero : ℕ → Option ℕ
nonzero zero = none
nonzero (suc n) = some (suc n)

unfoldable pub parse_height : JsonObject → ℕ
parse_height obj = elim (find_field obj (codes "height")) [
  | some (uint64 n) ↦ n
  | some (int64 (pos n)) ↦ n
  | _ ↦ 0
]

unfoldable pub parse_target_be : JsonObject → Option Bytes
unfolding find_hex
parse_target_be obj = elim (find_hex obj (codes "target")) [
  | some bytes ↦ if length bytes == 32 then some bytes else none
  | none ↦ none
]

-- static_cast<uint32_t>
unfoldable pub parse_nonce_offset : JsonObject → ℕ
unfolding find_uint64
parse_nonce_offset obj = elim (find_uint64 obj (codes "nonce_offset")) [
  | some n ↦ n % 2 ^ 32
  | none ↦ elim (find_uint64 obj (codes "reserved_offset")) [ some n ↦ n % 2 ^ 32 | none ↦ 39 ]
]

-- The last tests: the sum is of uint32_t, and a job needs one of the two targets.
unfoldable pub accept_job : StratumJob → Option StratumJob
accept_job job =
    if ltb (length job.blob) ((job.nonce_offset + 4) % 2 ^ 32)
    then none
    else if job.target_le == 0 && not job.has_target_be
    then none
    else some job

-- The variables of the loop over the further parameters.
pub record MiningParams : Type 0 where
  pub obj : JsonObject
  pub clean_jobs : Option Bool
  pub set_nonce_offset : Bool
  pub set_target_or_diff : Bool

-- What a parameter is taken for; each test fails once its value is set.
unfoldable pub as_clean_jobs : MiningParams → JsonValue → Option Bool
as_clean_jobs s v = elim s.clean_jobs [
  | some _ ↦ none
  | none ↦ elim v [ bool b ↦ some b | _ ↦ none ]
]

unfoldable pub as_target : MiningParams → JsonValue → Option Bytes
as_target s v = if s.set_target_or_diff then none else elim v [
  | string text ↦ elim (parse_hex text) [
    | some (b ∷ bytes) ↦ if leb (length (b ∷ bytes)) 32 then some text else none
    | _ ↦ none
  ]
  | _ ↦ none
]

module _ (doubles : Doubles) where
  -- `none` where has_diff_target is false.
  unfoldable pub find_diff_target : JsonObject → (difficulty : Option ℕ) → Option ℕ
  find_diff_target obj difficulty =
      let advertised : Option ℕ = elim difficulty [
        | some d ↦ nonzero (difficulty_to_target_le doubles d)
        | none ↦ none
      ] in
      elim (find_field obj (codes "difficulty")) [
        | some value ↦ elim (json_number_to_double doubles value) [
          | some d ↦ nonzero (difficulty_to_target_le doubles d)
          | none ↦ advertised
        ]
        | none ↦ advertised
      ]

  -- `difficulty` is the client's difficulty_.
  unfoldable pub parse_target_le : JsonObject → (difficulty : Option ℕ) → Option ℕ
  unfolding find_diff_target find_hex choose_end
  parse_target_le obj difficulty =
      let diff_target = find_diff_target obj difficulty in
      elim (find_hex obj (codes "target")) [
        | none ↦ diff_target
        | some bytes ↦
            if leb (length bytes) 8
            then nonzero (parse_target_prefix_le bytes)
            else elim (choose_end diff_target bytes) [ zero ↦ diff_target | suc n ↦ some (suc n) ]
      ]

  unfoldable pub parse_clean_jobs : JsonObject → Bool
  parse_clean_jobs obj = elim (find_field obj (codes "clean_jobs")) [
    | some value ↦ elim value [
      | bool b ↦ b
      | number ↦ elim (json_number_to_double doubles number) [
        | some d ↦ not (doubles.is_zero d)
        | none ↦ false
      ]
    ]
    | none ↦ false
  ]

  unfoldable pub parse_job_from_object : JsonObject → (difficulty : Option ℕ) → Option StratumJob
  unfolding find_hex parse_target_le parse_height parse_clean_jobs parse_target_be
      parse_nonce_offset accept_job
  parse_job_from_object obj difficulty = elim (find_string obj (codes "job_id")) [
    | none ↦ none
    | some job_id ↦ elim (find_hex obj (codes "blob")) [
      | none ↦ none
      | some blob ↦
          let target_be = parse_target_be obj in
          accept_job (record {
            job_id = job_id;
            blob = blob;
            nonce_offset = parse_nonce_offset obj;
            target_le = elim (parse_target_le obj difficulty) [ some n ↦ n | none ↦ 0 ];
            target_be = elim target_be [ some bytes ↦ bytes | none ↦ replicate 32 0 ];
            has_target_be = elim target_be [ some _ ↦ true | none ↦ false ];
            height = parse_height obj;
            clean_jobs = parse_clean_jobs obj;
          })
    ]
  ]

  -- Behind the two strings: the target, or else the difficulty.
  unfoldable pub notify_object : (job_id blob : Bytes) → (third : JsonValue) → JsonObject
  notify_object job_id blob third =
      let obj =
        assign (assign empty (codes "job_id") (string job_id)) (codes "blob") (string blob) in
      elim third [
        | string target ↦ assign obj (codes "target") (string target)
        | number ↦ elim (json_number_to_double doubles number) [
          | some d ↦ assign obj (codes "difficulty") (double d)
          | none ↦ obj
        ]
      ]

  -- The object that the parameters are, or that is made of them.
  unfoldable pub notify_params_object : JsonValue → Option JsonObject
  unfolding notify_object
  notify_params_object params = elim params [
    | object obj ↦ some obj
    | array arr ↦ elim (elements arr) [
      | string job_id ∷ string blob ∷ third ∷ _ ↦ some (notify_object job_id blob third)
      | _ ↦ none
    ]
    | _ ↦ none
  ]

  unfoldable pub parse_job_from_notify_params :
      JsonValue → (difficulty : Option ℕ) → Option StratumJob
  unfolding parse_job_from_object notify_params_object
  parse_job_from_notify_params params difficulty = elim (notify_params_object params) [
    | some obj ↦ parse_job_from_object obj difficulty
    | none ↦ none
  ]

  unfoldable pub as_nonce_offset : MiningParams → JsonValue → Option ℕ
  as_nonce_offset s v = if s.set_nonce_offset then none else elim (json_number_to_u64 doubles v) [
    | some n ↦ if leb n 512 then some n else none
    | none ↦ none
  ]

  unfoldable pub as_difficulty : MiningParams → JsonValue → Option ℕ
  as_difficulty s v =
      if s.set_target_or_diff then none else elim (json_number_to_double doubles v) [
        | some d ↦ if doubles.is_positive d then some d else none
        | none ↦ none
      ]

  unfoldable pub mining_param : MiningParams → JsonValue → MiningParams
  unfolding as_clean_jobs as_nonce_offset as_target as_difficulty
  mining_param s v = elim (as_clean_jobs s v) [
    | some b ↦ record s { clean_jobs = some b }
    | none ↦ elim (as_nonce_offset s v) [
      | some n ↦ record s {
        obj = assign s.obj (codes "nonce_offset") (uint64 n);
        set_nonce_offset = true;
      }
      | none ↦ elim (as_target s v) [
        | some text ↦ record s {
          obj = assign s.obj (codes "target") (string text);
          set_target_or_diff = true;
        }
        | none ↦ elim (as_difficulty s v) [
          | some d ↦ record s {
            obj = assign s.obj (codes "difficulty") (double d);
            set_target_or_diff = true;
          }
          | none ↦ s
        ]
      ]
    ]
  ]

  unfoldable pub mining_object : (job_id blob : Bytes) → List JsonValue → JsonObject
  unfolding mining_param
  mining_object job_id blob params =
      let start : MiningParams = record {
        obj = assign (assign empty (codes "job_id") (string job_id)) (codes "blob") (string blob);
        clean_jobs = none;
        set_nonce_offset = false;
        set_target_or_diff = false;
      } in
      let s = foldl mining_param start params in
      elim s.clean_jobs [ some b ↦ assign s.obj (codes "clean_jobs") (bool b) | none ↦ s.obj ]

  unfoldable pub mining_params_object : JsonValue → Option JsonObject
  unfolding mining_object
  mining_params_object params = elim params [
    | object obj ↦ some obj
    | array arr ↦ elim (elements arr) [
      | string job_id ∷ string blob ∷ more ↦ some (mining_object job_id blob more)
      | _ ↦ none
    ]
    | _ ↦ none
  ]

  unfoldable pub parse_job_from_mining_job_params :
      JsonValue → (difficulty : Option ℕ) → Option StratumJob
  unfolding parse_job_from_object mining_params_object
  parse_job_from_mining_job_params params difficulty = elim (mining_params_object params) [
    | some obj ↦ parse_job_from_object obj difficulty
    | none ↦ none
  ]

  -- The parameters of a notification `job`; `none` where no return is reached.
  unfoldable pub parse_job_params : JsonValue → (difficulty : Option ℕ) → Option (Option StratumJob)
  unfolding parse_job_from_object
  parse_job_params params difficulty = elim params [
    | object fields ↦ some (parse_job_from_object fields difficulty)
    | _ ↦ none
  ]

  -- A notification by its method; `none` where no return is reached.
  unfoldable pub parse_method :
      (method : Bytes) → (params : JsonValue) → (difficulty : Option ℕ) → Option (Option StratumJob)
  unfolding parse_job_params parse_job_from_mining_job_params parse_job_from_notify_params
  parse_method method params difficulty =
      if bytes_eq method (codes "job")
      then parse_job_params params difficulty
      else if bytes_eq method (codes "mining.job")
      then some (parse_job_from_mining_job_params params difficulty)
      else if bytes_eq method (codes "mining.notify")
      then some (parse_job_from_notify_params params difficulty)
      else none

  unfoldable pub parse_notification :
      JsonObject → (difficulty : Option ℕ) → Option (Option StratumJob)
  unfolding parse_method
  parse_notification obj difficulty = elim (find_string obj (codes "method")) [
    | none ↦ none
    | some method ↦ elim (find_field obj (codes "params")) [
      | none ↦ none
      | some params ↦ parse_method method params difficulty
    ]
  ]

  -- The job within the result of a reply.
  unfoldable pub parse_reply_job : JsonObject → (difficulty : Option ℕ) → Option StratumJob
  unfolding parse_job_from_object
  parse_reply_job obj difficulty = elim (find_object obj (codes "result")) [
    | none ↦ none
    | some result ↦ elim (find_object result (codes "job")) [
      | none ↦ none
      | some job ↦ parse_job_from_object job difficulty
    ]
  ]

  unfoldable pub parse_job_from_message : JsonValue → (difficulty : Option ℕ) → Option StratumJob
  unfolding parse_notification parse_reply_job
  parse_job_from_message msg difficulty = elim msg [
    | object obj ↦ elim (parse_notification obj difficulty) [
      | some job ↦ job
      | none ↦ parse_reply_job obj difficulty
    ]
    | _ ↦ none
  ]
