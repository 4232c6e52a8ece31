-- ===== src/Nanopb/Message/Encoder.antt =====
-- Fields of any kind, extensions, and `pb_encode` with the functions above it.
use ivr_repo.Base.{ℕ, zero, suc, ◌+◌, Bool, true, false, Option, none, some, List, [], ◌∷◌, ◌==◌}
use ivr_repo.Base.{if◌then◌else◌, length}
use ivr_repo.Nanopb.Descriptor.{Field, ltype, atype, callback_error, invalid_field_type}
use ivr_repo.Nanopb.Iter.{Iter, field_at, current, iter_begin, iter_next}
use ivr_repo.Nanopb.Memory.{load}
use ivr_repo.Nanopb.Message.Basic.{encode_basic_field}
use ivr_repo.Nanopb.Message.Fields.{Env}
use ivr_repo.Nanopb.Message.Submessage.{encode_submessage}
use ivr_repo.Nanopb.Output.{OStream, Writer, ◌>>◌, succeed, return_error, write, ostream_sizing}
use ivr_repo.Nanopb.Descriptor

abbrev pub out_of_fuel : Writer
out_of_fuel s = (false, s)

unfoldable pub callback_result : Bool × OStream → Bool × OStream
callback_result (true, s) = (true, s)
callback_result (false, s) = return_error callback_error s

-- `pb_callback_t`: `funcs.encode`, then `arg`.
unfoldable pub encode_callback_field : Env → Field → ℕ → Writer
encode_callback_field env field p_data = if load 8 env.mem p_data == 0 then succeed else λ s.
    callback_result (env.encode_callback (load 8 env.mem p_data) field (p_data + 8) s)

module _ (env : Env) (depth : ℕ) (sub : List Field → ℕ → Writer) where
  unfoldable pub encode_field : Field → ℕ → Writer
  encode_field field p_data =
      if atype field.type == Descriptor.atype_static
      then encode_basic_field env depth sub field p_data
      else if atype field.type == Descriptor.atype_pointer
      then encode_basic_field env depth sub field p_data
      else if atype field.type == Descriptor.atype_callback
      then encode_callback_field env field p_data
      else return_error invalid_field_type

  -- `pb_extension_t` has `type`, `dest` and `next`; its type has `decode`, `encode` and `arg`.
  unfoldable pub default_extension_encoder : ℕ → Writer
  default_extension_encoder extension =
      if atype field.type == Descriptor.atype_pointer
      then encode_field field (extension + 8)
      else encode_field field (load 8 env.mem (extension + 8))
    where
      field : Field
      field = field_at (env.descriptors (load 8 env.mem (load 8 env.mem extension + 16))) 0

  unfoldable pub encode_one_extension : ℕ → Writer
  encode_one_extension extension =
      if load 8 env.mem (load 8 env.mem extension + 8) == 0
      then default_extension_encoder extension
      else env.encode_extension (load 8 env.mem (load 8 env.mem extension + 8)) extension

  -- The list of extensions, as far as the fuel reaches; behind it the run fails.
  unfoldable pub encode_extensions : ℕ → ℕ → Writer
  encode_extensions zero extension = out_of_fuel
  encode_extensions (suc fuel) extension = if extension == 0 then succeed else (do
    encode_one_extension extension
    encode_extensions fuel (load 8 env.mem (extension + 16)))

  unfoldable pub encode_extension_field : Field → ℕ → Writer
  encode_extension_field field p_data = encode_extensions depth (load 8 env.mem p_data)

  -- The body of the loop of `pb_encode`.
  unfoldable pub encode_any : Field → ℕ → Writer
  encode_any field p_data =
      if ltype field.type == Descriptor.ltype_extension
      then encode_extension_field field p_data
      else encode_field field p_data

-- The loop of `pb_encode`. Each round moves one field on, so the number of fields is fuel enough.
unfoldable pub encode_fields : (Field → ℕ → Writer) → ℕ → Iter → Writer
encode_fields each zero iter = succeed
encode_fields each (suc fuel) iter =
    each (current iter) iter.p_data
    >> (let (more, iter') = iter_next iter in
        elim more [ true ↦ encode_fields each fuel iter' | false ↦ succeed ])

unfoldable pub encode_message : (Field → ℕ → Writer) → List Field → ℕ → Writer
encode_message each fields src_struct =
    let (begun, iter) = iter_begin fields src_struct in
    elim begun [ true ↦ encode_fields each (length fields) iter | false ↦ succeed ]

-- `pb_encode`. The fuel bounds the nesting of submessages and the lists of extensions; a run that
-- needs more fails.
unfoldable pub encode : Env → ℕ → List Field → ℕ → Writer
encode env zero fields src_struct = out_of_fuel
encode env (suc depth) fields src_struct =
    encode_message (encode_any env depth (encode env depth)) fields src_struct

module _ (env : Env) (depth : ℕ) (fields : List Field) (src_struct : ℕ) where
  unfoldable pub encode_delimited : Writer
  encode_delimited = encode_submessage (encode env depth fields src_struct)

  unfoldable pub encode_nullterminated : Writer
  encode_nullterminated = do encode env depth fields src_struct; write (0 ∷ []) 1

  -- `*size`, or `none` where the function returns false.
  unfoldable pub get_encoded_size : Option ℕ
  get_encoded_size =
      let (status, s) = encode env depth fields src_struct ostream_sizing in
      if status then some s.bytes_written else none
