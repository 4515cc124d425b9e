-- ===== src/Runner/Prompted.antt =====
-- From the message that is enqueued to what the agent is sent.
use hermes_python.Prelude.{
  ◌≡◌, refl, false, some, List, [], ◌∷◌, ◌++◌, length, ltb, Bool-cases, inl, inr,
}
use hermes_python.Texts.{Text, is_empty}
use hermes_python.Groups.{Conversation}
use hermes_python.Routing.{Block, text_block, resource_link, image_block, Settings, Turn, several}
use hermes_python.Routing.Sending.{full_text, prompt_blocks, is_first_turn}
use hermes_python.Runner.Single.{
  Content, plain_text, content_blocks, role_section, prefix_first, prompt_content,
}

-- The first text that the agent reads.
abbrev pub first_text : List Block → Text
first_text [] = []
first_text (text_block t ∷ bs) = t
first_text (resource_link u n m k ∷ bs) = first_text bs
first_text (image_block m d ∷ bs) = first_text bs

abbrev pub opening : Content → Text
opening (plain_text t) = t
opening (content_blocks bs) = first_text bs

-- With or without attachments, the agent is sent the system prompt of the enqueued message and,
-- right after it, its text.
pub opening-prompt_content :
    (s : Settings) (t : Turn) (c : Conversation) (p : Text)
    → is_empty p ≡ false
    → let text = full_text s t (is_first_turn c.acp_session_id) in
      opening (prompt_content text (several (prompt_blocks s t c)) (some p))
      ≡ role_section p ++ text
unfolding prompt_content prefix_first prompt_blocks
opening-prompt_content s t c p named = elim (Bool-cases (ltb 1 (length (prompt_blocks s t c)))) [
  | inl e ↦ rw (named, e, prompt_content) refl
  | inr e ↦ rw (named, e, prompt_content) refl
]
