-- ===== src/Builder/Code.antt =====
-- src/builder/code.rs and invoke.rs: builders of signatures, bodies and functions. A chain link, what
-- implements `Invoke`, is a function from what was built.
use parity_wasm.Base.{true, false, List, [], ◌∷◌, ◌++◌, Option, none, ok, panic, Outcome, ◌>>=◌}
use parity_wasm.Elements.Error.{Error}
use parity_wasm.Elements.Types.{ValueType, FunctionType}
use parity_wasm.Elements.Ops.{Instruction}
use parity_wasm.Elements.Ops.Blocks.{empty}
use parity_wasm.Elements.Func.{Func, FuncBody, Local}
use parity_wasm.Builder.Module.{Signature, type_reference, inline, FunctionDefinition}

pub record SignatureBuilder (R : Type 0) : Type 0 where
  pub callback : FunctionType → R
  pub signature : FunctionType

pub record SignaturesBuilder : Type 0 where
  pub section : List Signature

pub record FuncBodyBuilder (R : Type 0) : Type 0 where
  pub callback : FuncBody → R
  pub body : FuncBody

pub record FunctionBuilder (R : Type 0) : Type 0 where
  pub callback : FunctionDefinition → R
  pub func : FunctionDefinition

module _ {R : Type 0} where
  unfoldable pub signature_builder : (FunctionType → R) → SignatureBuilder R
  signature_builder callback = record {
    callback = callback;
    signature = record { form = 0x60; params = []; return_type = none };
  }

  unfoldable pub with_param : ValueType → SignatureBuilder R → SignatureBuilder R
  with_param value_type b = record b {
    signature = record b.signature { params = b.signature.params ++ value_type ∷ [] };
  }

  unfoldable pub with_params : List ValueType → SignatureBuilder R → SignatureBuilder R
  with_params value_types b = record b {
    signature = record b.signature { params = b.signature.params ++ value_types };
  }

  unfoldable pub with_return_type : Option ValueType → SignatureBuilder R → SignatureBuilder R
  with_return_type return_type b = record b {
    signature = record b.signature { return_type = return_type };
  }

  unfoldable pub build_signature : SignatureBuilder R → R
  build_signature b = b.callback b.signature

  unfoldable pub build_sig : SignatureBuilder R → Signature
  build_sig b = inline b.signature

  unfoldable pub func_body_builder : (FuncBody → R) → FuncBodyBuilder R
  func_body_builder callback = record {
    callback = callback;
    body = record { locals = []; instructions = empty };
  }

  unfoldable pub with_func : FuncBody → FuncBodyBuilder R → FuncBodyBuilder R
  with_func func b = record b { body = func }

  unfoldable pub with_locals : List Local → FuncBodyBuilder R → FuncBodyBuilder R
  with_locals locals b = record b { body = record b.body { locals = b.body.locals ++ locals } }

  unfoldable pub with_instructions : List Instruction → FuncBodyBuilder R → FuncBodyBuilder R
  with_instructions instructions b = record b {
    body = record b.body { instructions = instructions };
  }

  unfoldable pub build_body : FuncBodyBuilder R → R
  build_body b = b.callback b.body

  unfoldable pub function_builder : (FunctionDefinition → R) → FunctionBuilder R
  function_builder callback = record {
    callback = callback;
    func = record {
      is_main = false;
      signature = type_reference 0;
      body = record { locals = []; instructions = empty };
    };
  }

  unfoldable pub main : FunctionBuilder R → FunctionBuilder R
  main b = record b { func = record b.func { is_main = true } }

  unfoldable pub with_function_signature : Signature → FunctionBuilder R → FunctionBuilder R
  with_function_signature signature b = record b { func = record b.func { signature = signature } }

  unfoldable pub with_body : FuncBody → FunctionBuilder R → FunctionBuilder R
  with_body body b = record b { func = record b.func { body = body } }

  unfoldable pub build_function : FunctionBuilder R → R
  build_function b = b.callback b.func

module _ {R : Type 0} where
  -- `signature()` and `body()` of a function builder, whose chain goes on with what was built.
  unfoldable pub function_signature : FunctionBuilder R → SignatureBuilder (FunctionBuilder R)
  unfolding signature_builder with_function_signature
  function_signature b = signature_builder (λ f. with_function_signature (inline f) b)

  unfoldable pub function_body : FunctionBuilder R → FuncBodyBuilder (FunctionBuilder R)
  unfolding func_body_builder with_body
  function_body b = func_body_builder (λ f. with_body f b)

unfoldable pub with_signature : Signature → SignaturesBuilder → SignaturesBuilder
with_signature signature b = record { section = b.section ++ signature ∷ [] }

-- `SignaturesBuilder::build`: an inline signature is `unreachable!()`.
unfoldable pub build_functions : List Signature → Outcome Error (List Func)
build_functions [] = ok []
build_functions (type_reference type_ref ∷ section) = do
  functions ← build_functions section
  ok (record { type_ref = type_ref } ∷ functions)
build_functions (inline f ∷ section) = panic
