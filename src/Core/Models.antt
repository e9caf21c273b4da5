-- ===== src/Core/Models.antt =====
-- src/alert2ir/core/models.py: the canonical alert. A frozen dataclass is a record, and its
-- `__post_init__` a check that the constructor makes.
use alert2ir.Prelude.{String, Option, none, some, List, Eq, eq_of_discrete, string_discrete}
use alert2ir.Python.Result.{Result, ok, ◌>>◌, raise_if}
use alert2ir.Python.Text.{is_blank}
use alert2ir.Python.DateTime.{DateTime, DateTime-discrete, is_naive}

unfoldable pub require_non_empty : String → String → Result (Unit {0})
require_non_empty value message = raise_if (is_blank value) message

unfoldable pub require_optional_non_empty : Option String → String → Result (Unit {0})
unfolding require_non_empty
require_optional_non_empty none message = ok tt
require_optional_non_empty (some value) message = require_non_empty value message

pub data Severity : Type 0 where
  low medium high critical : Severity

pub record DetectionIdentity : Type 0 where
  pub identifier : String
  pub name : Option String

pub record SourceProvenance : Type 0 where
  pub source : String
  pub source_alert_id : Option String

pub record Entity : Type 0 where
  pub kind : String
  pub value : String

pub record EvidenceReference : Type 0 where
  pub reference : String
  pub kind : Option String

pub record CanonicalAlert : Type 0 where
  pub detection : DetectionIdentity
  pub detected_at : DateTime
  pub source : SourceProvenance
  pub entities : List Entity
  pub severity : Severity
  pub evidence : List EvidenceReference

unfoldable pub detection_post_init : DetectionIdentity → Result (Unit {0})
unfolding require_non_empty require_optional_non_empty
detection_post_init d = do
  require_non_empty d.identifier "identifier must be non-empty"
  require_optional_non_empty d.name "name must be non-empty"

unfoldable pub source_post_init : SourceProvenance → Result (Unit {0})
unfolding require_non_empty require_optional_non_empty
source_post_init s = do
  require_non_empty s.source "source must be non-empty"
  require_optional_non_empty s.source_alert_id "source_alert_id must be non-empty"

unfoldable pub entity_post_init : Entity → Result (Unit {0})
unfolding require_non_empty
entity_post_init e = do
  require_non_empty e.kind "kind must be non-empty"
  require_non_empty e.value "value must be non-empty"

unfoldable pub evidence_post_init : EvidenceReference → Result (Unit {0})
unfolding require_non_empty require_optional_non_empty
evidence_post_init e = do
  require_non_empty e.reference "reference must be non-empty"
  require_optional_non_empty e.kind "kind must be non-empty"

unfoldable pub alert_post_init : CanonicalAlert → Result (Unit {0})
alert_post_init a = raise_if (is_naive a.detected_at) "detected_at must be timezone-aware"

unfoldable pub Severity-discrete : Discrete Severity
Severity-discrete = hlevel

unfoldable pub DetectionIdentity-discrete : Discrete DetectionIdentity
DetectionIdentity-discrete = hlevel string_discrete

unfoldable pub SourceProvenance-discrete : Discrete SourceProvenance
SourceProvenance-discrete = hlevel string_discrete

unfoldable pub Entity-discrete : Discrete Entity
Entity-discrete = hlevel string_discrete

unfoldable pub EvidenceReference-discrete : Discrete EvidenceReference
EvidenceReference-discrete = hlevel string_discrete

unfoldable pub CanonicalAlert-discrete : Discrete CanonicalAlert
unfolding string_discrete DateTime-discrete DetectionIdentity-discrete SourceProvenance-discrete
    Entity-discrete EvidenceReference-discrete Severity-discrete
CanonicalAlert-discrete = hlevel (
  DateTime-discrete, DetectionIdentity-discrete, SourceProvenance-discrete, Entity-discrete,
  EvidenceReference-discrete, Severity-discrete,
)

instance abbrev pub source_equality : Eq SourceProvenance
source_equality = eq_of_discrete SourceProvenance-discrete

instance abbrev pub alert_equality : Eq CanonicalAlert
alert_equality = eq_of_discrete CanonicalAlert-discrete
