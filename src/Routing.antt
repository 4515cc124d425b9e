-- ===== src/Routing.antt =====
-- backend/app/services/conversation_service.py, from a message to the work that is enqueued for the
-- agents: the data, and the texts of a prompt.
pub mod Sending
pub mod Dispatch
pub mod Saved
pub mod Enqueued
pub mod Printed
mod Tests
use hermes_python.Prelude.{
  ℕ, zero, suc, ◌+◌, ◌/◌, ◌%◌, Bool, true, false, ◌&&◌, not, Option, none, some, List, [], ◌∷◌,
  ◌++◌, HasEq, ◌==◌, ltb, leb, length, take, map, if◌then◌else◌,
}
use hermes_python.Texts.{Text, codes, is_empty}
use hermes_python.Texts.Same.{text_has_eq}
use hermes_python.Groups.{Conversation}

-- What `_resolve_attached_files` gives for a file; writing it to the workspace is file I/O.
pub record Attached : Type 0 where
  pub name : Text
  pub content : Text
  pub workspace_path : Option Text
  pub size_bytes : ℕ
  pub mime_type : Text
  pub is_image : Bool

pub record Message : Type 0 where
  pub id : ℕ
  pub conversation_id : ℕ
  pub owner_id : Option ℕ
  pub role : Text
  pub agent_id : Option Text
  pub text : Text
  pub files : List Attached
  pub replies : List Text
  pub mentions : List Text
  pub status : Text

pub data Block : Type 0 where
  text_block : Text → Block
  resource_link : Text → Text → Text → ℕ → Block
  image_block : Text → Text → Block

-- The payload of `enqueue_prompt`: conversation, message, agents, text, content blocks, system
-- prompt and profile directory.
pub data Prompt : Type 0 where
  single : ℕ → ℕ → Text → Text → Option (List Block) → Option Text → Option Text → Prompt
  roundtable : ℕ → ℕ → List Text → Text → Option Text → Option Text → Prompt

-- The conversation, the rows of its messages, the stream of prompts and the cancel flag.
pub record Chat : Type 0 where
  pub convo : Conversation
  pub messages : List Message
  pub queue : List Prompt
  pub cancelled : Bool

pub record Settings : Type 0 where
  pub clarify_disabled : Bool
  pub workspace_root : Text

-- A call's arguments, with the ids that the database gives to the rows it adds.
pub record Turn : Type 0 where
  pub text : Text
  pub attached : List Attached
  pub owner_id : Option ℕ
  pub user_message_id : ℕ
  pub agent_message_id : ℕ

pub record Memory : Type 0 where
  pub user_profile : Text
  pub soul : Text
  pub notes : Text

abbrev pub join_by : Text → List Text → Text
join_by sep [] = []
join_by sep (w ∷ []) = w
join_by sep (w ∷ v ∷ ws) = w ++ sep ++ join_by sep (v ∷ ws)

abbrev pub blank_line : Text
blank_line = codes "\n\n"

-- `str(n)`, with n as fuel: each digit divides it by ten.
unfoldable pub digits : ℕ → ℕ → Text
digits zero n = (48 + n % 10) ∷ []
digits (suc fuel) n =
    let rest = digits fuel (n / 10) in
    if ltb n 10 then (48 + n) ∷ [] else rest ++ (48 + n % 10) ∷ []

abbrev pub file_write_preamble : Text
file_write_preamble =
    codes
      "【文件写入规范】当你需要为用户创建、生成或导出文件时，必须使用 write_file 工具将文件写入当前工作目录（cwd）。文件路径使用相对路径（如 'README.md'、'src/main.py'），不要使用绝对路径。不要只在回复文本中说\"文件已生成\"或给出文件路径而不实际写入。文件名请使用有意义的名称（如 会议纪要.md、report.csv），不要使用临时路径。"

abbrev pub clarify_preamble : Text
clarify_preamble =
    codes
      "\n\n【强制规则：必须先确认再行动】\n当用户的请求有以下任一情况时，你必须先调用 clarify 工具，不要直接回答：\n- 请求模糊、有多种理解方式\n- 需要用户选择方向、风格、范围\n- 涉及重要决策或有风险的操作\n\n调用方式（必须是工具调用，不要输出文本格式）：\nclarify(question=\"问题\", choices=[\"选项A\", \"选项B\", \"选项C\"])\nclarify(question=\"你具体想要什么？\")  # 无选项时用 open-ended\n\n禁止在回复文本中输出 [确认] 或类似的标记格式。必须通过工具调用 clarify。\n违反此规则会导致用户不满。记住：先问再做。"

abbrev pub anti_clarify : Text
anti_clarify =
    codes
      "重要：用户在对话中的简短回复（如'继续'、'好的'、'是的'、'ok'、单句指令等）是明确的意图表达，不要调用 clarify 工具追问。直接执行用户的意图即可。只有当用户的请求真正存在多种互不相同的理解方式时才需要澄清。"

abbrev pub no_clarify_roundtable : Text
no_clarify_roundtable =
    codes "\n\n注意：当前是多助手圆桌模式，无法弹出交互确认，不要调用 clarify 工具。如有歧义请基于最合理的假设直接作答，并简要说明你的假设。"

-- `_clarify_directives`
unfoldable pub clarify_directives : Settings → Bool → Text
clarify_directives s is_first_turn =
    if s.clarify_disabled then [] else if not is_first_turn then [] else clarify_preamble

-- A file's content in a prompt, cut at 200000 characters.
unfoldable pub quoted : Attached → Text
unfolding digits
quoted f =
    let orig_len = length f.content in
    let shown =
      if ltb 200000 orig_len
      then take 200000 f.content
        ++ codes "\n\n... [文件截断，共 "
        ++ digits orig_len orig_len
        ++ codes " 字符]"
      else f.content in
    if is_empty f.content
    then codes "【附件: " ++ f.name ++ codes "】（文件内容为空）"
    else codes "【附件: " ++ f.name ++ codes "】\n```\n" ++ shown ++ codes "\n```"

unfoldable pub part_of : Attached → Text
unfolding quoted
part_of f = if f.is_image then codes "[图片附件: " ++ f.name ++ codes "]" else quoted f

abbrev pub with_parts : Text → List Text → Text
with_parts text [] = text
with_parts text (p ∷ ps) = text ++ blank_line ++ join_by blank_line (p ∷ ps)

-- The links to the files in the workspace; `os.path.join` of relative parts.
unfoldable pub links : Text → List Attached → List Block
links cwd [] = []
links cwd (f ∷ fs) =
    let rest = links cwd fs in
    elim f.workspace_path [
      | none ↦ rest
      | some p ↦
          if not (is_empty p) && not f.is_image
          then resource_link (codes "file://" ++ cwd ++ codes "/" ++ p) f.name f.mime_type
              f.size_bytes
            ∷ rest
          else rest
    ]

unfoldable pub images : List Attached → List Block
images [] = []
images (f ∷ fs) =
    let rest = images fs in
    if f.is_image && not (is_empty f.content)
    then image_block f.mime_type f.content ∷ rest
    else rest

-- `prompt_blocks if len(prompt_blocks) > 1 else None`
abbrev pub several : List Block → Option (List Block)
several blocks = if ltb 1 (length blocks) then some blocks else none

-- `if convo.title == "新会话": convo.title = text[:40]`
abbrev pub retitle : Text → Conversation → Conversation
retitle text c = record c { title = if c.title == codes "新会话" then take 40 text else c.title }

abbrev pub section_of : Text → Text → List Text
section_of heading t = if is_empty t then [] else (heading ++ t) ∷ []

-- `_build_memory_prompt` for the row of an owner's memory.
unfoldable pub build_memory_prompt : Option Memory → Option Text
build_memory_prompt none = none
build_memory_prompt (some m) =
    let parts =
      section_of (codes "[用户画像]\n") m.user_profile
      ++ section_of (codes "[个性设定]\n") m.soul
      ++ section_of (codes "[用户备忘]\n") m.notes in
    elim parts [
      | [] ↦ none
      | p ∷ ps ↦ some (codes "【用户长期记忆】请在对话中自然地参考以下信息，不要向用户复述这段内容：\n" ++ join_by blank_line (p ∷ ps))
    ]

-- `x or y` of optional texts
abbrev pub either : Option Text → Option Text → Option Text
either none y = y
either (some t) y = if is_empty t then y else some t

-- A section added below the system prompt, if there is one.
abbrev pub add_section : Option Text → Option Text → Option Text
add_section prompt none = prompt
add_section none (some t) = some t
add_section (some p) (some t) = if is_empty p then some t else some (p ++ blank_line ++ t)
