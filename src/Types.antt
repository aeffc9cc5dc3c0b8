-- ===== src/Types.antt =====
-- The messages that the runner and its clients exchange, of reckon/reckon_types.py. Times are
-- numbers of some fixed unit: the program only compares and subtracts them.
use reckon_k8s.Prelude.{ℕ, Bool, List}
use reckon_k8s.Text.{Text}

pub data OperationKind : Type 0 where
  write read create update delete other : OperationKind

-- `Union[Write, Read, Create, Update, Delete]`, told apart by the field `kind`.
pub data Payload : Type 0 where
  write : (key value : Text) → Payload
  read : (key : Text) → Payload
  create : (key value : Text) → Payload
  update : (key value : Text) → Payload
  delete : (key : Text) → Payload

pub record Operation : Type 0 where
  pub payload : Payload
  pub time : ℕ

-- `class Result`. `other` is the dictionary of that field.
pub record Response : Type 0 where
  pub t_submitted : ℕ
  pub t_result : ℕ
  pub result : Text
  pub op_kind : OperationKind
  pub clientid : Text
  pub other : List (Text × Text)

-- `Message.__root__`, told apart by the field `kind`.
pub data Message : Type 0 where
  preload : (prereq : Bool) (operation : Operation) → Message
  finalise ready start : Message
  result : Response → Message
  finished : Message

abbrev pub key_of : Payload → Text
key_of (Payload.write k v) = k
key_of (Payload.read k) = k
key_of (Payload.create k v) = k
key_of (Payload.update k v) = k
key_of (Payload.delete k) = k
