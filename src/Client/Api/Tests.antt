-- ===== src/Client/Api/Tests.antt =====
-- Examples for client/src/api.rs.
use zk_llm_gateway.Prelude.{ℕ, ◌≡◌, refl, true, none, some, [], ◌∷◌}
use zk_llm_gateway.Prelude.Text.{codes, bytes_eq}
use zk_llm_gateway.Prelude.Strings.{lookup}
use zk_llm_gateway.Token.{c256}
use zk_llm_gateway.Client.Session.{SessionDisk}
use zk_llm_gateway.Client.Redaction.{none_mode}
use zk_llm_gateway.Client.Toy.{world, agent, config, draw}
use zk_llm_gateway.Client.Api.{
  post_chat, post_chat_stream, post_save, ApiDraw, ApiState, chunk_string, chunks, some_chunk,
}
use zk_llm_gateway.Client.Api.Handlers.{post_save_for, work_of}
use zk_llm_gateway.Client.Api.Serve.{handle, make_session, post_session}
use zk_llm_gateway.Client.Api.Access.{IsGuarded, handle-IsGuarded, handle-others}
use zk_llm_gateway.Client.Api.Streams.{IsStreamed, handle-IsStreamed}

abbrev drawn : ApiDraw
drawn = record {
  stream_id = codes "s";
  new_id = codes "n";
  memory_id = 1;
  now = 7;
  draw = draw;
  load = record {
    birth = record { now = 5; salt = [] };
    write_new = draw.write;
    write_terms = draw.write;
    write_agent = draw.write;
  };
}

abbrev state : ApiState SessionDisk ℕ ℕ
state = record {
  manager = record {
    cfg = record {
      endpoint_url = codes "http";
      gateway_public_bytes = [];
      model = codes "m";
      token_class = c256;
      redact_mode = none_mode;
      extra_terms = [];
      prompt_cfg = config;
      session_key = none;
      sessions_dir = codes "data";
      default_system_prompt = codes "Be brief.";
      default_session_id = codes "work";
      default_session_path_override = none;
      index_messages = true;
      max_messages_indexed = 5;
    };
    sessions = (codes "work", agent) ∷ (codes "other", agent) ∷ [];
    files = [];
  };
  api_key = some (codes "key");
  default_session_id = codes "work";
  stream_chunk_chars = 2;
  source = 0;
}

chunk_string_test : chunk_string (codes "hello") 2 ≡ codes "he" ∷ codes "ll" ∷ codes "o" ∷ []
unfolding chunk_string chunks some_chunk
chunk_string_test = refl

handle-IsGuarded_example :
    IsGuarded
      (some (codes "kex"))
      state
      (handle world drawn (some (codes "kex")) none post_save state)
      (post_save_for world drawn (codes "work") state)
    × IsGuarded
        (some (codes "kex"))
        state
        (post_session world drawn (some (codes "kex")) none none state)
        (make_session world drawn none none state)
unfolding work_of
handle-IsGuarded_example =
    handle-IsGuarded world drawn (some (codes "kex")) none none none post_save state

abbrev after : ApiState SessionDisk ℕ ℕ
after = (handle world drawn (some (codes "key")) none (post_chat (codes "hi")) state).1

handle-others_example :
    lookup (codes "other") after.manager.sessions ≡ lookup (codes "other") state.manager.sessions
unfolding bytes_eq
handle-others_example =
    handle-others world drawn (some (codes "key")) none (codes "other") (post_chat (codes "hi"))
      state refl

handle-IsStreamed_example :
    IsStreamed 2
      (handle world drawn (some (codes "key")) none (post_chat (codes "hi")) state).0
      (handle world drawn (some (codes "key")) none (post_chat_stream (codes "hi")) state).0
    × ((handle world drawn (some (codes "key")) none (post_chat_stream (codes "hi")) state).1
        ≡ (handle world drawn (some (codes "key")) none (post_chat (codes "hi")) state).1)
handle-IsStreamed_example =
    handle-IsStreamed world drawn (some (codes "key")) none (codes "hi") state
