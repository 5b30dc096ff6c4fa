-- ===== src/Admin/Tests.antt =====
-- The theorems on the administrator's requests at a concrete account.
use opencloud_backend.Base.{
  ◌≡◌, refl, Bool, none, some, List, [], ◌∷◌, All, Text, txt, strip, strip_left, is_space,
}
use opencloud_backend.Base.Dict.{Dict}
use opencloud_backend.Base.Json.{str, dict}
use opencloud_backend.Zadara.Http.{Sent, response}
use opencloud_backend.Zadara.Cache.{ok}
use opencloud_backend.Zadara.Machines.{ListedVm, normalize_vm}
use opencloud_backend.Admin.{Directory, account_domain, domain_or_error, then_reply, or_502}
use opencloud_backend.Admin.Views.{admin_resources, resources_page}
use opencloud_backend.Admin.Users.{Call, CreateRequest, create_user}
use opencloud_backend.Admin.Changes.{delete_user}
use opencloud_backend.Admin.Boundary.{IsOf, admin_resources-IsOf}
use opencloud_backend.Admin.Calls.{IsOwn, create_user-IsOwn, delete_user-IsOwn}

abbrev machine : Text → ListedVm
machine project = record {
  vm = normalize_vm (dict ((txt "project_id", str project) ∷ []));
  public_ips = [];
  disks = none;
}

abbrev projects : Dict Text
projects = (txt "p1", txt "web") ∷ []

abbrev machines : List ListedVm
machines = machine (txt "p1") ∷ machine (txt "p2") ∷ []

abbrev directory : Directory
directory = record {
  resolve_domain_id = λ (account : Text). ok (some (txt "d1"));
  list_domain_projects = λ (domain_id : Text). ok projects;
  list_domain_users = λ (domain_id : Text). ok (dict ((txt "id", str (txt "u1")) ∷ []) ∷ []);
  list_domain_project_details = λ (domain_id : Text). ok [];
  list_vms = λ (with_disks : Bool). ok machines;
  list_domain_quotas = λ (domain_id : Text). ok [];
  list_project_quotas = λ (project_id : Text). ok [];
}

abbrev cloud : Call → Sent
cloud call = response (record {
  status = 200;
  retry_after = none;
  subject_token = [];
  receipt = [];
  body = some (dict ((txt "id", str (txt "u2")) ∷ []));
})

admin_resources-IsOf_example :
    (domain_id : Text) × (own : Dict Text) × (directory.resolve_domain_id (strip (txt "acme"))
      ≡ ok (some domain_id))
    × (directory.list_domain_projects domain_id ≡ ok own)
    × All (IsOf own) (resources_page (txt "acme") [] projects machines).vms
unfolding admin_resources account_domain domain_or_error then_reply or_502 strip strip_left is_space
admin_resources-IsOf_example =
    admin_resources-IsOf directory (txt "acme") []
      (resources_page (txt "acme") [] projects machines) refl

abbrev bob : CreateRequest
bob = record {
  name = txt "bob";
  email = [];
  password = txt "secret";
  project_id = txt "p1";
  must_change = none;
}

create_user-IsOwn_example :
    All
      (IsOwn directory (txt "acme") (txt "u0"))
      (create_user cloud directory (txt "acme") (some (txt "t")) bob).calls
create_user-IsOwn_example =
    create_user-IsOwn cloud directory (txt "acme") (txt "u0") (some (txt "t")) bob

delete_user-IsOwn_example :
    All
      (IsOwn directory (txt "acme") (txt "u0"))
      (delete_user cloud directory (txt "acme") (txt "u0") (some (txt "t")) (txt "u1") []).calls
delete_user-IsOwn_example =
    delete_user-IsOwn cloud directory (txt "acme") (txt "u0") (some (txt "t")) (txt "u1") []
