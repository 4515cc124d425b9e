-- ===== src/Governance.antt =====
-- backend/app/core/governance.py: the per-team permission matrix.
pub mod Cells
pub mod Toggle
mod Tests
use hermes_python.Prelude.{
  Bool, true, false, not, ◌||◌, Option, none, some, String, List, [], ◌∷◌, map, ◌==◌, string_has_eq,
  contains, if◌then◌else◌, ◌++◌,
}
use hermes_python.Dict.{Dict, get, put, keep_keys, merge}

abbrev pub team_roles : List String
team_roles = "owner" ∷ "admin" ∷ "member" ∷ "viewer" ∷ []

pub record Permission : Type 0 where
  pub id : String
  pub group : String
  pub label : String

abbrev perm : String → String → String → Permission
perm id group label = record { id = id; group = group; label = label }

abbrev pub permissions : List Permission
permissions =
    perm "project.create" "项目" "新建项目"
    ∷ perm "project.edit" "项目" "编辑项目"
    ∷ perm "project.delete" "项目" "归档 / 删除项目"
    ∷ perm "knowledge.upload" "知识库" "上传条目"
    ∷ perm "knowledge.edit" "知识库" "编辑条目"
    ∷ perm "knowledge.delete" "知识库" "删除条目"
    ∷ perm "conversation.pin" "会话与助手" "置顶会话"
    ∷ perm "agent.manage" "会话与助手" "管理共享助手"
    ∷ perm "channel.clear" "会话与助手" "清空群聊记录"
    ∷ perm "channel.manage_agents" "会话与助手" "管理群聊助手"
    ∷ perm "member.invite" "成员" "邀请成员"
    ∷ perm "member.role" "成员" "调整角色"
    ∷ perm "member.remove" "成员" "移除成员"
    ∷ []

abbrev pub permission_ids : List String
permission_ids = map (λ p. p.id) permissions

abbrev pub Row : Type 0
Row = Dict String Bool

abbrev pub Policy : Type 0
Policy = Dict String Row

-- `_DEFAULTS`
abbrev admin_defaults : Row
admin_defaults = merge (map (λ pid. (pid, true)) permission_ids) (("member.remove", false) ∷ [])

abbrev member_defaults : Row
member_defaults =
    ("project.create", true)
    ∷ ("project.edit", true)
    ∷ ("project.delete", false)
    ∷ ("knowledge.upload", true)
    ∷ ("knowledge.edit", true)
    ∷ ("knowledge.delete", false)
    ∷ ("conversation.pin", true)
    ∷ ("agent.manage", false)
    ∷ ("channel.clear", false)
    ∷ ("channel.manage_agents", false)
    ∷ ("member.invite", false)
    ∷ ("member.role", false)
    ∷ ("member.remove", false)
    ∷ []

abbrev viewer_defaults : Row
viewer_defaults = map (λ pid. (pid, false)) permission_ids

-- d.get(k, False)
abbrev pub get_or_false : String → Row → Bool
get_or_false k d = elim (get k d) [ none ↦ false | some b ↦ b ]

-- policy.get(pid) or {}
abbrev pub row_of : Policy → String → Row
row_of policy pid = elim (get pid policy) [ none ↦ [] | some row ↦ row ]

unfoldable pub default_row : String → Row
unfolding get put merge
default_row pid =
    ("owner", true)
    ∷ ("admin", get_or_false pid admin_defaults)
    ∷ ("member", get_or_false pid member_defaults)
    ∷ ("viewer", get_or_false pid viewer_defaults)
    ∷ []

unfoldable pub default_from : List String → Policy → Policy
default_from [] policy = policy
default_from (pid ∷ ids) policy = default_from ids (put pid (default_row pid) policy)

unfoldable pub default_policy : Policy
unfolding default_from
default_policy = default_from permission_ids []

-- `k in TEAM_ROLES`
unfoldable pub is_team_role : String → Bool
is_team_role k = contains k team_roles

-- `pid in PERMISSION_IDS`
unfoldable pub is_known : String → Bool
is_known pid = contains pid permission_ids

-- One row of the loop in `ensure_policy`, with the owner's column locked on.
unfoldable pub complete_row : Row → Row → Row
complete_row base row = put "owner" true (merge base (keep_keys is_team_role row))

complete_from : Policy → List String → Policy → Policy
unfolding complete_row
complete_from policy [] base = base
complete_from policy (pid ∷ ids) base =
    complete_from policy ids (put pid (complete_row (row_of base pid) (row_of policy pid)) base)

-- `if not policy` holds of `None` and of the empty dict.
unfoldable pub ensure_policy : Option Policy → Policy
unfolding complete_from default_policy
ensure_policy none = default_policy
ensure_policy (some []) = default_policy
ensure_policy (some (r ∷ rows)) = complete_from (r ∷ rows) permission_ids default_policy

unfoldable pub can : Option Policy → String → String → Bool
can policy perm_id role_key =
    if role_key == "owner"
    then true
    else get_or_false role_key (row_of (ensure_policy policy) perm_id)

unfoldable pub toggle : Policy → String → String → Policy
toggle policy perm_id role_key =
    let pol = ensure_policy (some policy) in
    let row = row_of pol perm_id in
    if role_key == "owner" || not (is_known perm_id)
    then pol
    else put perm_id (put role_key (not (get_or_false role_key row)) row) pol

-- `groups.setdefault(p["group"], []).append(p)`
add_to_group : Permission → Dict String (List Permission) → Dict String (List Permission)
add_to_group p groups =
    put p.group (elim (get p.group groups) [ none ↦ p ∷ [] | some items ↦ items ++ p ∷ [] ]) groups

group_from : List Permission → Dict String (List Permission) → Dict String (List Permission)
group_from [] groups = groups
group_from (p ∷ ps) groups = group_from ps (add_to_group p groups)

unfoldable pub grouped_permissions : Dict String (List Permission)
unfolding group_from add_to_group
grouped_permissions = group_from permissions []

-- The first unknown id is the `ValueError`.
unfoldable pub assert_known : List String → Option String
assert_known [] = none
assert_known (pid ∷ ids) = if is_known pid then assert_known ids else some pid
