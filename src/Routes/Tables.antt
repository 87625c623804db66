-- ===== src/Routes/Tables.antt =====
-- The tables of events, CAPAs, documents and document versions as scoped tables. What a model
-- registers for auditing (`__audit_entity__`, `__audit_fields__`) is in app/models.
pub mod More
pub mod Unaudited
use cron_qms.Prelude.{refl, true, arith}
use cron_qms.Models.Event
use cron_qms.Models.Event.{Event}
use cron_qms.Models.Capa
use cron_qms.Models.Capa.{Capa}
use cron_qms.Models.Document.{Document, DocumentVersion, document_fields, version_fields}
use cron_qms.Core.Audit.Replay.{SameNames, Distinct}
use cron_qms.Routes.Scoped.{Scoped}

pub event_fields-SameNames : (a b : Event) → SameNames (Event.audit_fields a) (Event.audit_fields b)
unfolding Event.audit_fields
event_fields-SameNames a b = ground arith

pub event_fields-Distinct : (a : Event) → Distinct (Event.audit_fields a)
unfolding Event.audit_fields
event_fields-Distinct a = ground arith

pub capa_fields-SameNames : (a b : Capa) → SameNames (Capa.audit_fields a) (Capa.audit_fields b)
unfolding Capa.audit_fields
capa_fields-SameNames a b = ground arith

pub capa_fields-Distinct : (a : Capa) → Distinct (Capa.audit_fields a)
unfolding Capa.audit_fields
capa_fields-Distinct a = ground arith

pub document_fields-SameNames : (a b : Document) → SameNames (document_fields a) (document_fields b)
unfolding document_fields
document_fields-SameNames a b = ground arith

pub document_fields-Distinct : (a : Document) → Distinct (document_fields a)
unfolding document_fields
document_fields-Distinct a = ground arith

pub version_fields-SameNames :
    (a b : DocumentVersion) → SameNames (version_fields a) (version_fields b)
unfolding version_fields
version_fields-SameNames a b = ground arith

pub version_fields-Distinct : (a : DocumentVersion) → Distinct (version_fields a)
unfolding version_fields
version_fields-Distinct a = ground arith

abbrev pub event_table : Scoped Event
event_table = record {
  audited = record {
    entity = "event";
    id = λ e. e.id;
    fields = Event.audit_fields;
    same_names = event_fields-SameNames;
    distinct = event_fields-Distinct;
  };
  organization = λ e. e.organization_id;
  active = λ e. e.is_active;
  rows = λ db. db.events;
  put = λ db xs h. record db { events = xs; history = h };
  rows-put = λ db xs h. refl;
  history-put = λ db xs h. refl;
}

abbrev pub capa_table : Scoped Capa
capa_table = record {
  audited = record {
    entity = "capa";
    id = λ c. c.id;
    fields = Capa.audit_fields;
    same_names = capa_fields-SameNames;
    distinct = capa_fields-Distinct;
  };
  organization = λ c. c.organization_id;
  active = λ c. c.is_active;
  rows = λ db. db.capas;
  put = λ db xs h. record db { capas = xs; history = h };
  rows-put = λ db xs h. refl;
  history-put = λ db xs h. refl;
}

abbrev pub document_table : Scoped Document
document_table = record {
  audited = record {
    entity = "document";
    id = λ d. d.id;
    fields = document_fields;
    same_names = document_fields-SameNames;
    distinct = document_fields-Distinct;
  };
  organization = λ d. d.organization_id;
  active = λ d. d.is_active;
  rows = λ db. db.documents;
  put = λ db xs h. record db { documents = xs; history = h };
  rows-put = λ db xs h. refl;
  history-put = λ db xs h. refl;
}

-- A version has no `is_active`, and its query does not ask for one.
abbrev pub version_table : Scoped DocumentVersion
version_table = record {
  audited = record {
    entity = "document_version";
    id = λ v. v.id;
    fields = version_fields;
    same_names = version_fields-SameNames;
    distinct = version_fields-Distinct;
  };
  organization = λ v. v.organization_id;
  active = λ v. true;
  rows = λ db. db.versions;
  put = λ db xs h. record db { versions = xs; history = h };
  rows-put = λ db xs h. refl;
  history-put = λ db xs h. refl;
}
