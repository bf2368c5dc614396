-- ===== src/Agent/Main/Modes.antt =====
-- zeromq_agent.cpp, main: which arguments it knows.
use zeromq_agent.Base.{
  ◌≡◌, refl, sym, ◌∙◌, ap, String, Option, none, some, List, [], ◌∷◌, inl, inr, ◌↔◌, Bool-cases,
  if◌then◌else◌,
}
use zeromq_agent.Agent.Main.{
  Mode, client, server, client_pub, server_pub, broker, worker, broker_publish, client_pub_async,
  client_req_async, server_req_async, mode_of,
}
use mathlib.Core.Option.{some-injective}
use text.Mathlib.Text.{◌==◌}
use text.Mathlib.TextEquality.{eq_iff}

abbrev pub name_of : Mode → String
name_of client = "client"
name_of server = "server"
name_of client_pub = "client_pub"
name_of server_pub = "server_pub"
name_of broker = "broker"
name_of worker = "worker"
name_of broker_publish = "broker_publish"
name_of client_pub_async = "client_pub_async"
name_of client_req_async = "client_req_async"
name_of server_req_async = "server_req_async"

-- The first mode with this name.
abbrev find : List Mode → String → Option Mode
find [] arg = none
find (mode ∷ listed) arg = if arg == name_of mode then some mode else find listed arg

abbrev modes : List Mode
modes =
    client ∷ server ∷ client_pub ∷ server_pub ∷ broker ∷ worker ∷ broker_publish ∷ client_pub_async
    ∷ client_req_async ∷ server_req_async ∷ []

mode_of-find : (arg : String) → mode_of arg ≡ find modes arg
unfolding mode_of
mode_of-find arg = refl

find-name_of :
    (listed : List Mode) (arg : String) (mode : Mode)
    → find listed arg ≡ some mode
    → arg ≡ name_of mode
find-name_of [] arg mode h = cc
find-name_of (m ∷ listed) arg mode h = elim (Bool-cases (arg == name_of m)) [
  | inl e ↦ (eq_iff arg (name_of m)).0 e ∙ ap name_of (some-injective m mode (rw e at h))
  | inr e ↦ find-name_of listed arg mode (rw e at h)
]

mode_of-name_of : (mode : Mode) → mode_of (name_of mode) ≡ some mode
unfolding mode_of
mode_of-name_of client = refl
mode_of-name_of server = refl
mode_of-name_of client_pub = refl
mode_of-name_of server_pub = refl
mode_of-name_of broker = refl
mode_of-name_of worker = refl
mode_of-name_of broker_publish = refl
mode_of-name_of client_pub_async = refl
mode_of-name_of client_req_async = refl
mode_of-name_of server_req_async = refl

-- An argument selects a mode exactly if it is the name of that mode: each of the ten modes can be
-- selected, and no text selects it but its name.
pub mode_of_iff : (arg : String) (mode : Mode) → (mode_of arg ≡ some mode) ↔ (arg ≡ name_of mode)
mode_of_iff arg mode = (
  λ h. find-name_of modes arg mode (sym (mode_of-find arg) ∙ h),
  λ e. ap mode_of e ∙ mode_of-name_of mode,
)
