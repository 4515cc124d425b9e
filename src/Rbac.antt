-- ===== src/Rbac.antt =====
-- backend/app/core/rbac.py: platform roles, their ranks, and the permission catalog.
pub mod Monotone
mod Tests
use hermes_python.Prelude.{
  ℕ, Bool, true, false, String, List, [], ◌∷◌, ◌==◌, string_has_eq, contains, leb, if◌then◌else◌,
}

-- `ROLE_ORDER.get(role, 0)`
unfoldable pub role_rank : String → ℕ
role_rank role =
    if role == "super_admin"
    then 100
    else if role == "admin"
    then 80
    else if role == "team_admin"
    then 60
    else if role == "member"
    then 40
    else if role == "viewer"
    then 20
    else 0

unfoldable pub has_at_least : String → String → Bool
has_at_least role required = leb (role_rank required) (role_rank role)

pub record Item : Type 0 where
  pub id : String
  pub name : String
  pub roles : List String

pub record Group : Type 0 where
  pub group : String
  pub items : List Item

abbrev item : String → String → List String → Item
item id name roles = record { id = id; name = name; roles = roles }

abbrev pub top : List String
top = "super_admin" ∷ []

abbrev pub admins : List String
admins = "super_admin" ∷ "admin" ∷ []

abbrev pub team_admins : List String
team_admins = "super_admin" ∷ "admin" ∷ "team_admin" ∷ []

abbrev pub members : List String
members = "super_admin" ∷ "admin" ∷ "team_admin" ∷ "member" ∷ []

abbrev pub permission_catalog : List Group
permission_catalog =
    record {
      group = "会话";
      items =
          item "chat.create" "创建会话" members
          ∷ item "chat.delete_own" "删除自己的会话" members
          ∷ item "chat.delete_any" "删除任意会话" admins
          ∷ item "chat.share" "分享会话" members
          ∷ [];
    }
    ∷ record {
      group = "团队 & 项目";
      items =
          item "team.create" "创建团队" admins
          ∷ item "team.invite" "邀请成员" team_admins
          ∷ item "project.create" "创建项目" members
          ∷ item "project.archive" "归档项目" team_admins
          ∷ [];
    }
    ∷ record {
      group = "助手 & 知识";
      items =
          item "agent.publish" "发布团队助手" team_admins
          ∷ item "agent.system_prompt" "修改系统提示" admins
          ∷ item "kb.upload" "上传知识库" members
          ∷ item "kb.delete" "删除知识条目" team_admins
          ∷ [];
    }
    ∷ record {
      group = "后台管理";
      items =
          item "admin.users" "用户管理" admins
          ∷ item "admin.roles" "权限管理" top
          ∷ item "admin.identity" "身份与连接器" top
          ∷ item "admin.billing" "查看计费" top
          ∷ item "admin.audit" "审计日志" admins
          ∷ [];
    }
    ∷ []

-- The inner loop: the answer of the first item with the id, if there is one.
has_in_items : String → String → List Item → Bool → Bool
has_in_items role perm_id [] otherwise = otherwise
has_in_items role perm_id (i ∷ items) otherwise =
    let rest = has_in_items role perm_id items otherwise in
    if i.id == perm_id then contains role i.roles else rest

has_in_groups : String → String → List Group → Bool
unfolding has_in_items
has_in_groups role perm_id [] = false
has_in_groups role perm_id (g ∷ groups) =
    has_in_items role perm_id g.items (has_in_groups role perm_id groups)

unfoldable pub has_permission : String → String → Bool
unfolding has_in_groups
has_permission role perm_id = has_in_groups role perm_id permission_catalog
