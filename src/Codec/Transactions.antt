-- ===== src/Codec/Transactions.antt =====
-- transaction_from_json of src/types.cpp behind transaction_to_json.
use scrig.Base.{[], ◌∷◌, ◌≡◌, refl}
use scrig.Base.Bytes.{codes, bytes_eq}
use scrig.Base.Fault.{ok}
use scrig.Types.{TransactionInput, TransactionOutput, Transaction}
use scrig.Types.Wellformed.{IsInput, IsOutput, IsTransaction}
use scrig.Json.{
  Doubles, JsonValue, uint64, array, object, as_uint64, as_object, as_array, find_field,
}
use scrig.Json.Parser.{emplace}
use scrig.Codec.{
  array_of, object_of, require_field, uint64_field, input_to_json, input_from_json, output_to_json,
  output_from_json, transaction_to_json, transaction_from_json,
}
use scrig.Codec.Atoms.{
  Survives, hash-Survives, public_key-Survives, optional_hash-Survives, optional_signature-Survives,
  elements-array_of, traverse-Survives,
}

output-Survives :
    (doubles : Doubles) (o : TransactionOutput)
    → IsOutput o
    → Survives output_to_json (output_from_json doubles) o
unfolding output_to_json output_from_json object_of emplace require_field uint64_field as_uint64
    as_object as_array find_field bytes_eq
output-Survives doubles o h =
    let (receiver, there, back) = public_key-Survives o.receiver h.receiver in
    (
      object (object_of ((codes "amount", uint64 o.amount) ∷ (codes "receiver", receiver) ∷ [])),
      rw there refl,
      rw back refl,
    )

input-Survives :
    (doubles : Doubles) (input : TransactionInput)
    → IsInput input
    → Survives input_to_json (input_from_json doubles) input
unfolding input_to_json input_from_json object_of emplace require_field uint64_field as_uint64
    as_object as_array find_field bytes_eq
input-Survives doubles input h =
    let (id, id_there, id_back) = hash-Survives input.transaction_id h.transaction_id in
    let (signature, signature_there, signature_back) =
      optional_signature-Survives input.signature h.signature in
    let (owner, owner_there, owner_back) = public_key-Survives input.output_owner h.output_owner in
    (
      object (
          object_of (
            (codes "transaction_id", id)
            ∷ (codes "output_index", uint64 input.output_index)
            ∷ (codes "signature", signature)
            ∷ (codes "output_owner", owner)
            ∷ [])),
      rw (id_there, signature_there, owner_there) refl,
      rw (id_back, signature_back, owner_back) refl,
    )

-- A transaction whose fields fit their types has a JSON form, and reading that form gives the
-- transaction back.
pub transaction_from_json-transaction_to_json :
    (doubles : Doubles) (tx : Transaction)
    → IsTransaction tx
    → (value : JsonValue) × (transaction_to_json tx ≡ ok value)
      × (transaction_from_json doubles value ≡ ok tx)
unfolding transaction_to_json transaction_from_json object_of emplace require_field uint64_field
    as_uint64 as_object as_array find_field bytes_eq
transaction_from_json-transaction_to_json doubles tx h =
    let (inputs, inputs_there, inputs_back) =
      traverse-Survives input_to_json (input_from_json doubles) IsInput (input-Survives doubles)
        tx.inputs h.inputs in
    let (outputs, outputs_there, outputs_back) =
      traverse-Survives output_to_json (output_from_json doubles) IsOutput (output-Survives doubles)
        tx.outputs h.outputs in
    let (id, id_there, id_back) = optional_hash-Survives tx.transaction_id h.transaction_id in
    (
      object (
          object_of (
            (codes "inputs", array (array_of inputs))
            ∷ (codes "outputs", array (array_of outputs))
            ∷ (codes "transaction_id", id)
            ∷ (codes "nonce", uint64 tx.nonce)
            ∷ (codes "timestamp", uint64 tx.timestamp)
            ∷ [])),
      rw (inputs_there, outputs_there, id_there) refl,
      rw (elements-array_of inputs, elements-array_of outputs, inputs_back, outputs_back, id_back)
          refl,
    )
