-- ===== src/Node/Dynamic.antt =====
-- Publishing by a message's definition: `hash_message` and `publish_dynamic` of
-- rosrust-async/src/node/mod.rs. The parser of definitions is code of rosrust and ros_message, a parameter.
mod Sums
pub mod Hashes
mod Tests
use rosrust_async.Base.{
  ℕ, zero, suc, Bool, true, false, Option, none, some, List, [], ◌∷◌, Str, Result, ok, err, map_err,
  ◌>>=◌,
}
use rosrust_async.Base.Action.{Action, done, fail, next}
use rosrust_async.Base.Dict.{lookup, insert}
use rosrust_async.Tcpros.Spec.{Topic}

-- A message of a definition has a path, and asks for the messages at other paths. `md5_representation`
-- is told the sums of these by path.
pub record Definitions : Type 1 where
  pub DynamicMsg : Type 0
  pub Msg : Type 0
  pub ParseError : Type 0
  pub MsgError : Type 0
  pub new_dynamic : Str → Str → Result ParseError DynamicMsg
  pub msg : DynamicMsg → Msg
  pub dependency : DynamicMsg → Str → Option Msg
  pub path : Msg → Str
  pub dependencies : Msg → List Str
  pub md5_representation : Msg → List (Str × Str) → Result MsgError Str

abbrev pub MsgHashes : Type 0
MsgHashes = List (Str × Str)

-- The error of ros_message, or that the fuel has run out, which the code does not know.
pub data Stopped (E : Type 0) : Type 0 where
  ros_message : E → Stopped E
  exhausted : Stopped E

pub data DynamicError (D : Definitions) : Type 0 where
  invalid_dynamic_msg : D.ParseError → DynamicError D
  stopped : Stopped D.MsgError → DynamicError D

module _ (D : Definitions) (digest : Str → Str) where
  open D use {DynamicMsg, Msg, MsgError, dependency, path, dependencies, md5_representation}

  abbrev Hashing : Type 0 → Type 0
  Hashing A = Action MsgHashes (Stopped MsgError) A

  hash_known : (Msg → Hashing Str) → Option Msg → Hashing (Unit {0})
  hash_known hash none hashes = (ok tt, hashes)
  hash_known hash (some dep_msg) hashes = next (hash dep_msg hashes) (λ _. done tt)

  hash_missing : DynamicMsg → (Msg → Hashing Str) → Str → Option Str → Hashing (Unit {0})
  hash_missing root hash dep_path (some sum) hashes = (ok tt, hashes)
  hash_missing root hash dep_path none hashes = hash_known hash (dependency root dep_path) hashes

  unfoldable pub hash_dependencies :
      DynamicMsg → (Msg → Hashing Str) → List Str → Hashing (Unit {0})
  unfolding hash_known hash_missing
  hash_dependencies root hash [] hashes = (ok tt, hashes)
  hash_dependencies root hash (dep_path ∷ rest) hashes =
      next (hash_missing root hash dep_path (lookup dep_path hashes) hashes)
        (λ _. hash_dependencies root hash rest)

  keep : Msg → Result MsgError Str → Hashing Str
  keep m (err e) hashes = (err (ros_message e), hashes)
  keep m (ok representation) hashes =
      (ok (digest representation), insert (path m) (digest representation) hashes)

  -- With the depth of the calls as fuel. `digest` is the MD5 sum in hexadecimal digits.
  unfoldable pub hash_message : ℕ → DynamicMsg → Msg → Hashing Str
  unfolding keep hash_dependencies
  hash_message zero root m hashes = (err exhausted, hashes)
  hash_message (suc fuel) root m hashes =
      next (hash_dependencies root (hash_message fuel root) (dependencies m) hashes)
        (λ _ summed. keep m (md5_representation m summed) summed)

  -- The topic that `publish_dynamic` registers.
  unfoldable pub dynamic_topic : ℕ → Str → Str → Str → Result (DynamicError D) Topic
  unfolding hash_message
  dynamic_topic fuel topic_name message_type message_definition = do
    dyn_message ← map_err invalid_dynamic_msg (D.new_dynamic message_type message_definition)
    md5sum ← map_err stopped (hash_message fuel dyn_message (D.msg dyn_message) []).0
    ok (record {
      name = topic_name;
      spec = record {
        md5sum = md5sum;
        msg_type = message_type;
        msg_definition = message_definition;
      };
    })
