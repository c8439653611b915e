-- ===== src/Node/Dynamic/Tests.antt =====
-- A pose of a point and a header: runs of `hash_message` of rosrust-async/src/node/mod.rs.
use mathlib.Core.List.{Memᴰ}
use mathlib.Core.List.Memᴰ.{head, tail}
use mathlib.Core.Option.{some_inj}
use rosrust_async.Base.{
  ℕ, ◌<◌, ◌≡◌, refl, arith, Option, none, some, List, [], ◌∷◌, ◌++◌, Str, ok, err, str_eq,
  str_eq_iff, if◌then◌else◌, ap, subst, codes,
}
use rosrust_async.Base.Dict.{lookup}
use rosrust_async.Node.Dynamic.{
  Definitions, MsgHashes, hash_message, dynamic_topic, invalid_dynamic_msg,
}
use rosrust_async.Node.Dynamic.Sums.{Md5}
use rosrust_async.Node.Dynamic.Hashes.{Ends, hash_message_lem}

data Part : Type 0 where
  pose point header : Part

abbrev name_of : Part → Str
name_of pose = codes "Pose"
name_of point = codes "Point"
name_of header = codes "Header"

abbrev asked : Part → List Str
asked pose = (codes "Header") ∷ (codes "Point") ∷ (codes "Missing") ∷ []
asked point = (codes "Header") ∷ []
asked header = []

abbrev found : Str → Option Part
found d =
    if str_eq d (codes "Point")
    then some point
    else if str_eq d (codes "Header")
    then some header
    else none

abbrev level : Part → ℕ
level pose = 2
level point = 1
level header = 0

abbrev sum_text : Option Str → Str
sum_text none = []
sum_text (some s) = s

abbrev sum_texts : List Str → MsgHashes → Str
sum_texts [] t = []
sum_texts (d ∷ ds) t = sum_text (lookup d t) ++ sum_texts ds t

abbrev definitions : Definitions
definitions = record {
  DynamicMsg = Str;
  Msg = Part;
  ParseError = Str;
  MsgError = Str;
  new_dynamic =
      λ type definition. if str_eq definition [] then err (codes "empty") else ok definition;
  msg = λ root. pose;
  dependency = λ root. found;
  path = name_of;
  dependencies = asked;
  md5_representation = λ m t. ok (name_of m ++ sum_texts (asked m) t);
}

abbrev mark : Str → Str
mark s = 1 ∷ s

found-name_of : (d : Str) (n : Part) → found d ≡ some n → name_of n ≡ d
found-name_of d pose e = ground (arith, str_eq_iff d (codes "Point"), str_eq_iff d (codes "Header"))
found-name_of d point e =
    ground (arith, str_eq_iff d (codes "Point"), str_eq_iff d (codes "Header"))
found-name_of d header e =
    ground (arith, str_eq_iff d (codes "Point"), str_eq_iff d (codes "Header"))

asked-level : (m n : Part) (d : Str) → Memᴰ d (asked m) → found d ≡ some n → level n < level m
unfolding str_eq
asked-level pose pose d i e =
    ground (arith, str_eq_iff d (codes "Point"), str_eq_iff d (codes "Header"))
asked-level pose point d i e = omega arith
asked-level pose header d i e = omega arith
asked-level point n d (head p) e =
    let h : some header ≡ some n = subst (λ x. found x ≡ some n) p e in
    subst (λ k. level k < 1) (some_inj.0 h) (omega arith)
asked-level point n d (tail i) e = elim i [ ]
asked-level header n d i e = elim i [ ]

sum_texts_local :
    (ds : List Str) (t u : MsgHashes)
    → ((d : Str) → Memᴰ d ds → lookup d t ≡ lookup d u)
    → sum_texts ds t ≡ sum_texts ds u
sum_texts_local [] t u same = refl
sum_texts_local (d ∷ ds) t u same =
    rw (same d (head refl), sum_texts_local ds t u (λ e i. same e (tail i))) refl

hash_message_runs :
    hash_message definitions mark 3 [] pose [] ≡ hash_message definitions mark 9 [] pose []
unfolding hash_message lookup str_eq
hash_message_runs = refl

dynamic_topic_empty :
    dynamic_topic definitions mark 3 (codes "chatter") (codes "Pose") []
    ≡ err (invalid_dynamic_msg (codes "empty"))
unfolding dynamic_topic str_eq
dynamic_topic_empty = refl

hash_message_lem_example :
    Ends definitions mark []
      (λ s _. Md5 definitions mark [] pose s × ((t : Str) → Md5 definitions mark [] pose t → s ≡ t))
      (hash_message definitions mark 3 [] pose [])
hash_message_lem_example =
    hash_message_lem definitions mark [] found-name_of level asked-level
      (λ m t u same. ap ok (ap (λ s. name_of m ++ s) (sum_texts_local (asked m) t u same))) 3 pose
      (omega arith)
