-- ===== src/Field.antt =====
-- Field errors of the Kubernetes validation library (k8s.io/apimachinery, validation/field), as
-- the webhooks build them: the kind, the path and the value. The message texts are left out.
use kube_op.Prelude.{ℕ, String, List, [], ◌∷◌, ◌++◌}
use kube_op.Text.{Text}

pub data PathElement : Type 0 where
  child : String → PathElement
  key : String → PathElement
  index : ℕ → PathElement

abbrev pub FieldPath : Type 0
FieldPath = List PathElement

-- `path.Child(name)`, `path.Key(name)`, `path.Index(i)`
abbrev pub at : FieldPath → PathElement → FieldPath
at path element = path ++ element ∷ []

pub data FieldError : Type 0 where
  required : FieldPath → FieldError
  invalid : FieldPath → Text → FieldError
  forbidden : FieldPath → FieldError
  internal : FieldPath → FieldError

abbrev pub ErrorList : Type 0
ErrorList = List FieldError
