-- ===== src/Webhook/Fields.antt =====
-- The errors of k8s.io/apimachinery/pkg/util/validation/field, and the answer of a validator. The bad
-- value of an error, which is only printed, is left out.
use yurt_app_manager.Prelude.{ℕ, List, [], ◌∷◌, String}

pub data PathElement : Type 0 where
  child : String → PathElement
  index : ℕ → PathElement

pub data ErrorType : Type 0 where
  required_value invalid_value forbidden_value : ErrorType

pub record FieldError : Type 0 where
  pub kind : ErrorType
  pub path : List PathElement
  pub detail : String

abbrev pub ErrorList : Type 0
ErrorList = List FieldError

abbrev pub required : List PathElement → String → FieldError
required path detail = record { kind = ErrorType.required_value; path = path; detail = detail }

abbrev pub invalid : List PathElement → String → FieldError
invalid path detail = record { kind = ErrorType.invalid_value; path = path; detail = detail }

abbrev pub forbidden : List PathElement → String → FieldError
forbidden path detail = record { kind = ErrorType.forbidden_value; path = path; detail = detail }

abbrev pub children : List String → List PathElement
children [] = []
children (s ∷ ss) = PathElement.child s ∷ children ss
