-- ===== src/Lib.antt =====
-- professord, the daemon of Professor_AI: an HTTP server that answers OpenAI-style requests with a
-- language model. One thread runs the event loop of mongoose (src/server.c): it accepts
-- connections, checks address, body and key, parses the request (src/api_types.c), resolves its
-- sampling parameters against the configuration (src/config.c, src/inference.c) and hands a job to
-- the one worker thread (src/worker.c). The worker renders the prompt and runs the generation loop
-- (src/inference.c); its callback puts each token into the job's token ring, from which the event
-- loop drains it into the reply, or into the job's response buffer.
--
-- Which file models what:
-- - Ring.antt: `token_ring_t` of src/worker.h with `ring_init`, `ring_is_full`, `ring_is_empty` and
--   `ring_write` of src/worker.c, `ring_read` and the batch of `drain_stream_ring` of src/server.c.
--   Each is one critical section of the mutex; a script of them is an order in which the threads
--   take it. Ring/Window is the invariant, Ring/Fifo and Ring/Script the refinement, Ring/Progress
--   the waits.
-- - Api.antt and Api/Parse.antt: the request types of src/api_types.h, `valid_role`,
--   `chat_request_parse`, `chat_request_free` and `completion_request_parse` of src/api_types.c.
--   The library cJSON is the parameter Api/Cjson.antt. Api/WellFormed is what a parse guarantees.
-- - Api/Builder.antt, Api/Serialize.antt: the serializers and `generate_request_id` of
--   src/api_types.c, over the calls of cJSON and the reader of a client; the replies that
--   `drain_stream_ring` makes of a job.
-- - Config.antt: `config_t` of src/config.h. Config/Parse.antt, Config/Settings.antt and
--   Config/Load.antt: src/config.c, with the C library's functions that it uses, and the steps of
--   `main` in src/main.c that call it. Config/Order is about lines in another order, or twice.
-- - Inference/Setup.antt: the thread count, the parameters and the engine's fields of
--   `inference_init`.
-- - Inference/Params.antt: `clamp_f`, `clamp_i`, `inference_resolve_params` and
--   `inference_resolve_params_completion` of src/inference.c, over the floats of Float.antt.
-- - Inference/Window.antt, Inference/Generate.antt, Inference/Complete.antt: `inference_complete`,
--   from the inside out: the stop window, the generation loop, the whole. The calls of llama.cpp
--   are the records `Model` and `Backend`; the flags and the clock are a function from the round to
--   their values.
-- - Inference/Chat.antt: `build_chatml_prompt` and the rendering in `inference_chat`;
--   Inference/Run.antt: the whole of it. Inference/Pieces is the model's own stream of pieces, and
--   what a callback is to do with them; Inference/Delivery and Inference/Reply compare the loop and
--   the call with that stream.
-- - Worker/Accum.antt and Worker/Stream.antt: `accum_token_cb` with the response buffer, and
--   `stream_token_cb`, of src/worker.c. Worker/Run.antt and Worker/Feed.antt: the two branches of
--   `worker_thread_func` that run a job with them. Worker/Collects and Worker/FeedLaws show that
--   both callbacks are collectors in the sense of Inference/Pieces, which Worker/Answer takes as a
--   parameter and Worker/Settled applies to the two kinds of job; Worker/LongPiece compares them on
--   one piece.
-- - Worker/Protocol.antt: the life of jobs between the threads: `worker_thread_func`,
--   `worker_submit`, `worker_is_busy` and `worker_cancel` of src/worker.c, and of src/server.c the
--   end of `drain_stream_ring` and MG_EV_CLOSE. Worker/Owned, Worker/Frees and Worker/Abandoned are
--   about who frees a job.
-- - Server/Submit.antt and Server/Finish.antt: `submit_inference_job`, and the statuses and the
--   counters of `drain_stream_ring`, of src/server.c.
-- - Server/Auth.antt, Server/Acl.antt, Server/Connections.antt, Server/Route.antt: `check_auth` and
--   the branches of `ev_handler` in src/server.c. mongoose's matching is the record `Mongoose`.
-- - Server/Reply.antt: the response that `drain_stream_ring` makes of a job, with all that leads to
--   it: the prompt, the generation, the buffer, the document and the client's reader.
-- - Server/Events.antt: `ev_handler` as a whole, which composes Route, Submit, Finish, Connections
--   and Worker/Protocol; Server/EventLaws, Server/Attach and Server/EventRun are about its runs.
-- - Server/Stream.antt: the streaming loop of `drain_stream_ring`, with the worker's writes in
--   between.
-- - Server/Report.antt, Server/Handlers.antt: `stats_report`, `stats_check_report` and
--   `stats_to_json` of src/stats.c, `server_run` and the handlers of src/server.c;
--   Server/Whatif.antt: `handle_whatif`.
-- - Logger.antt: src/logger.c, and `llama_log_cb` of src/inference.c.
-- - Daemon.antt: `daemon_daemonize`, `daemon_write_pidfile` and `daemon_remove_pidfile` of
--   src/daemon.c, over what the operating system answers. Daemon/Signals.antt:
--   `daemon_install_signals` and the handler, with what POSIX makes of a disposition;
--   Server/Loop.antt: `server_run` while signals arrive.
-- - Main.antt: `main` of src/main.c from `logger_init` on, with `inference_init`,
--   `inference_destroy`, `server_init` and `server_destroy`, as the sequence of what it opens and
--   closes.
-- - Prelude/Text.antt: the printing of numbers and the cutting of lines that several parts share.
-- - Recommend.antt and Recommend/: src/recommend.c. Sources and Detect are `hw_detect` over a file
--   system, Models and Picks the tables and `hw_print_recommendations`; the sizes are exact.
-- - Server/Stats.antt: `stats_t` of src/stats.h, and the counting of `send_error`.
--
-- Conventions: a C string is the list of its bytes before the NUL; a fixed array is a list with the
-- bound as a theorem; `malloc` and `realloc` are Booleans that say whether they succeed; the calls
-- that log are left out. Sizes are natural numbers and wrap at 2^64 where the source could reach
-- it; `*out_len` of `build_chatml_prompt` wraps at 2^31. The sum of `cap_tokens` does not wrap: an
-- overflow there is undefined in C, and takes a context of more than 2^30 tokens. The loop over
-- the prompt runs on fuel, as many rounds as there are tokens, which is enough since each round
-- takes one at least; `ring_write` runs over the list of its wake-ups.
--
-- Not modelled: the access log, the help text, the summary and the fixed texts that src/recommend.c
-- prints, and the mutexes, whose critical sections are steps. What the program does once a thread
-- has used a freed job is not modelled: the worker's place is then `undefined`, and the number of a
-- freed job is not used again. That mongoose hands on a connection's next request when the reply is
-- complete is a condition on the events (Server/Events, `is_orderly`). A number that is printed
-- as a rounded `double` is the pair that is divided, or a parameter's text.
pub mod Prelude
pub mod Float
pub mod Ring
pub mod Api
pub mod Config
pub mod Inference
pub mod Worker
pub mod Server
pub mod Daemon
pub mod Logger
pub mod Main
pub mod Recommend
