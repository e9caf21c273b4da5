-- ===== src/Application/Fingerprint.antt =====
-- src/alert2ir/application/fingerprinting.py: the document that identifies an alert. Its text and
-- the digest of that text (json.dumps, UTF-8, SHA-256) are one parameter where a digest is needed.
pub mod Injective
use alert2ir.Prelude.{ℕ, String, Option, none, some, List, [], ◌∷◌}
use alert2ir.Python.DateTime.{instant}
use alert2ir.Core.Models.{CanonicalAlert, Entity, EvidenceReference}
use alert2ir.Core.Workflow.{severity_value}

-- A JSON value. A timestamp stands for the UTC text of its instant, to the microsecond.
mutual
  pub data Json : Type 0 where
    null : Json
    text : String → Json
    timestamp : ℕ → Json
    array : Elements → Json
    object : Members → Json

  pub data Elements : Type 0 where
    nil : Elements
    cons : Json → Elements → Elements

  pub data Members : Type 0 where
    end : Members
    member : String → Json → Members → Members

abbrev pub optional_text : Option String → Json
optional_text none = null
optional_text (some s) = text s

-- {k₁: v₁, k₂: v₂}
abbrev pub pair_object : String → Json → String → Json → Json
pair_object k v k' v' = object (member k v (member k' v' end))

unfoldable pub entity_elements : List Entity → Elements
entity_elements [] = nil
entity_elements (e ∷ es) =
    cons (pair_object "kind" (text e.kind) "value" (text e.value)) (entity_elements es)

unfoldable pub evidence_elements : List EvidenceReference → Elements
evidence_elements [] = nil
evidence_elements (e ∷ es) =
    cons (pair_object "reference" (text e.reference) "kind" (optional_text e.kind))
      (evidence_elements es)

abbrev pub fingerprint_version : ℕ
fingerprint_version = 1

unfoldable pub canonical_fingerprint_document : CanonicalAlert → Json
unfolding entity_elements evidence_elements
canonical_fingerprint_document a = object (
    member "schema" (text "alert2ir.canonical-alert-fingerprint.v1") (
      member "detection"
        (pair_object "identifier" (text a.detection.identifier) "name"
          (optional_text a.detection.name))
        (member "detected_at" (timestamp (instant a.detected_at)) (
          member "source"
            (pair_object "source" (text a.source.source) "source_alert_id"
              (optional_text a.source.source_alert_id))
            (member "entities" (array (entity_elements a.entities)) (
              member "severity" (text (severity_value a.severity))
                (member "evidence" (array (evidence_elements a.evidence)) end)))))))
