-- ===== src/Runtime/Continuity.antt =====
-- crates/aiai-runtime/src/continuity.rs: the binding of a durable subject to the components that
-- serve it.
pub mod Laws
use artificial_intelligence.Base.{
  Bool, Option, false, if◌then◌else◌, none, not, some, true, ◌==◌, ◌||◌, bytes_ord,
}
use artificial_intelligence.Contracts.Identifier.{
  SubjectId, ControllerId, RuntimeId, ModelId, identifier_ord,
}

pub record ContinuityChange : Type 0 where
  pub controller : Bool
  pub runtime : Bool
  pub model : Bool

unfoldable pub any : ContinuityChange → Bool
any c = c.controller || c.runtime || c.model

pub data ContinuityRelation : Type 0 where
  identical : ContinuityRelation
  continuous : ContinuityChange → ContinuityRelation
  distinct_subject : ContinuityRelation

pub record SubjectBinding : Type 0 where
  pub subject : SubjectId
  pub controller : ControllerId
  pub runtime : RuntimeId
  pub model : Option ModelId

-- `SubjectBinding::new`
abbrev pub new : SubjectId → ControllerId → RuntimeId → Option ModelId → SubjectBinding
new subject controller runtime model = record {
  subject = subject;
  controller = controller;
  runtime = runtime;
  model = model;
}

unfoldable pub rebind : SubjectBinding → ControllerId → RuntimeId → Option ModelId → SubjectBinding
rebind self controller runtime model = record {
  subject = self.subject;
  controller = controller;
  runtime = runtime;
  model = model;
}

-- The derived equality of `Option<ModelId>`.
abbrev pub same_model : Option ModelId → Option ModelId → Bool
same_model none none = true
same_model none (some b) = false
same_model (some a) none = false
same_model (some a) (some b) = a == b

abbrev pub change : SubjectBinding → SubjectBinding → ContinuityChange
change self other = record {
  controller = not (self.controller == other.controller);
  runtime = not (self.runtime == other.runtime);
  model = not (same_model self.model other.model);
}

unfoldable pub classify : SubjectBinding → SubjectBinding → ContinuityRelation
unfolding any
classify self other =
    if not (self.subject == other.subject)
    then distinct_subject
    else if any (change self other)
    then continuous (change self other)
    else identical
