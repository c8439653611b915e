-- ===== src/Tcpros/Header/Compat.antt =====
-- Whether the two ends of a connection may talk: the three checks of tcpros/header/mod.rs.
use rosrust_async.Base.{
  ◌≡◌, refl, ◌⊎◌, inl, inr, Bool, true, false, Str, str_eq_iff, arith, Result, ok, err, ◌>>◌, ◌↔◌,
  sym,
}
use rosrust_async.Tcpros.Spec.{
  CompatibilityError, md5, type_, ros_wildcard, are_fields_compatible, ensure, Service, TopicSpec,
  ServiceSpec, validate_topic_specs, validate_service_specs,
}
use rosrust_async.Tcpros.Header.Defs.{
  PublisherHeader, SubscriberHeader, ServiceClientHeader, ProbeResponseHeader,
}

unfoldable pub validate_pubsub_compatibility :
    PublisherHeader → SubscriberHeader → Result CompatibilityError (Unit {0})
validate_pubsub_compatibility p s = do
  ensure (are_fields_compatible p.md5sum s.md5sum) (md5 p.md5sum s.md5sum)
  ensure (are_fields_compatible p.msg_type s.msg_type) (type_ p.msg_type s.msg_type)

unfoldable pub validate_server_compatibility :
    Service → ProbeResponseHeader → Result CompatibilityError (Unit {0})
validate_server_compatibility service response = do
  ensure (are_fields_compatible service.spec.md5sum response.md5sum)
      (md5 service.spec.md5sum response.md5sum)
  ensure (are_fields_compatible service.spec.msg_type response.msg_type)
      (type_ service.spec.msg_type response.msg_type)

unfoldable pub validate_client_compatibility :
    Service → ServiceClientHeader → Result CompatibilityError (Unit {0})
validate_client_compatibility service client = do
  ensure (are_fields_compatible service.spec.md5sum client.md5sum)
      (md5 service.spec.md5sum client.md5sum)
  ensure (are_fields_compatible service.spec.msg_type client.msg_type)
      (type_ service.spec.msg_type client.msg_type)

-- Two texts that may stand for the same type: equal, or one of them is the wildcard.
abbrev pub Agree : Str → Str → Type 0
Agree a b = (a ≡ b) ⊎ (a ≡ ros_wildcard) ⊎ (b ≡ ros_wildcard)

pub are_fields_compatible-Agree : (a b : Str) → are_fields_compatible a b ≡ true → Agree a b
unfolding are_fields_compatible
are_fields_compatible-Agree a b h =
    ground (arith, str_eq_iff a b, str_eq_iff a ros_wildcard, str_eq_iff b ros_wildcard)

pub Agree-are_fields_compatible : (a b : Str) → Agree a b → are_fields_compatible a b ≡ true
unfolding are_fields_compatible
Agree-are_fields_compatible a b h =
    ground (arith, str_eq_iff a b, str_eq_iff a ros_wildcard, str_eq_iff b ros_wildcard)

pub are_fields_compatible-not_Agree :
    (a b : Str) → are_fields_compatible a b ≡ false → ¬ (Agree a b)
are_fields_compatible-not_Agree a b h g = ground (arith, Agree-are_fields_compatible a b g)

-- What two checks in a row make of the MD5 sums `a`, `b` and the types `c`, `d`: the first
-- disagreement is reported, with both texts.
abbrev pub Verdict : Str → Str → Str → Str → Result CompatibilityError (Unit {0}) → Type 0
Verdict a b c d r =
    (Agree a b × Agree c d × (r ≡ ok tt))
    ⊎ (¬ (Agree a b) × (r ≡ err (md5 a b)))
    ⊎ (Agree a b × ¬ (Agree c d) × (r ≡ err (type_ c d)))

ensure-Verdict :
    (a b c d : Str)
    → Verdict a b c d (
        ensure (are_fields_compatible a b) (md5 a b)
        >> ensure (are_fields_compatible c d) (type_ c d))
ensure-Verdict a b c d = go (are_fields_compatible a b) (are_fields_compatible c d) refl refl
  where
    go :
        (x y : Bool)
        → are_fields_compatible a b ≡ x
        → are_fields_compatible c d ≡ y
        → Verdict a b c d (ensure x (md5 a b) >> ensure y (type_ c d))
    go false y p q = inr (inl (are_fields_compatible-not_Agree a b p, refl))
    go true false p q =
        inr (inr (are_fields_compatible-Agree a b p, are_fields_compatible-not_Agree c d q, refl))
    go true true p q =
        inl (are_fields_compatible-Agree a b p, are_fields_compatible-Agree c d q, refl)

-- The three checks between headers, and the one between the descriptions of two services, accept
-- exactly when the MD5 sums agree and the types agree, and otherwise report the first that does not.
pub validate-Verdict :
    (p : PublisherHeader) (s : SubscriberHeader) (service : Service) (r : ProbeResponseHeader)
    (c : ServiceClientHeader) (other : ServiceSpec)
    → Verdict p.md5sum s.md5sum p.msg_type s.msg_type (validate_pubsub_compatibility p s)
      × Verdict service.spec.md5sum r.md5sum service.spec.msg_type r.msg_type
          (validate_server_compatibility service r)
      × Verdict service.spec.md5sum c.md5sum service.spec.msg_type c.msg_type
          (validate_client_compatibility service c)
      × Verdict service.spec.md5sum other.md5sum service.spec.msg_type other.msg_type
          (validate_service_specs service.spec other)
unfolding validate_pubsub_compatibility validate_server_compatibility validate_client_compatibility
    validate_service_specs
validate-Verdict p s service r c other =
    (ensure-Verdict _ _ _ _, ensure-Verdict _ _ _ _, ensure-Verdict _ _ _ _, ensure-Verdict _ _ _ _)

topic_tests :
    (a b : TopicSpec)
    → (validate_topic_specs a b ≡ ok tt) ↔ (
        (are_fields_compatible a.md5sum b.md5sum ≡ true)
        × (are_fields_compatible a.msg_type b.msg_type ≡ true)
        × (are_fields_compatible a.msg_definition b.msg_definition ≡ true))
unfolding validate_topic_specs
topic_tests a b = (λ h. ground arith, λ h. ground arith)

Agree-symm : (a b : Str) → Agree a b → Agree b a
Agree-symm a b (inl e) = inl (sym e)
Agree-symm a b (inr (inl e)) = inr (inr e)
Agree-symm a b (inr (inr e)) = inr (inl e)

pub topic_agreement :
    (a b : TopicSpec)
    → (validate_topic_specs a b ≡ ok tt) ↔ (
        Agree a.md5sum b.md5sum
        × Agree a.msg_type b.msg_type
        × Agree a.msg_definition b.msg_definition)
topic_agreement a b = (
  λ h.
      let (x, y, z) = (topic_tests a b).0 h in
      (
        are_fields_compatible-Agree _ _ x,
        are_fields_compatible-Agree _ _ y,
        are_fields_compatible-Agree _ _ z,
      ),
  λ h. (topic_tests a b).1 (
    Agree-are_fields_compatible _ _ h.0,
    Agree-are_fields_compatible _ _ h.1,
    Agree-are_fields_compatible _ _ h.2,
  ),
)

-- Two topics are compatible exactly when MD5 sums, types and definitions all agree, and the order of
-- the two does not matter.
pub validate_topic_specs-Agree :
    (a b : TopicSpec)
    → ((validate_topic_specs a b ≡ ok tt) ↔ (
        Agree a.md5sum b.md5sum
        × Agree a.msg_type b.msg_type
        × Agree a.msg_definition b.msg_definition))
      × ((validate_topic_specs a b ≡ ok tt) ↔ (validate_topic_specs b a ≡ ok tt))
validate_topic_specs-Agree a b = (topic_agreement a b, (flip a b, flip b a))
  where
    flip : (x y : TopicSpec) → validate_topic_specs x y ≡ ok tt → validate_topic_specs y x ≡ ok tt
    flip x y h =
        let (sums, types, definitions) = (topic_agreement x y).0 h in
        (topic_agreement y x).1
          (Agree-symm _ _ sums, Agree-symm _ _ types, Agree-symm _ _ definitions)
