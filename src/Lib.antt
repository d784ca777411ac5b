-- ===== src/Lib.antt =====
-- Verification of the components of the Kit packages: kit-api (calls of external services),
-- kit-data (access to databases), kit-pay (plans and payments of subscribers) and kit-media
-- (uploads, captions and delivery of media), Python packages over kit-core, and of the example
-- application that puts them together. The components are classes that an application uses side
-- by side; the middleware and the endpoints of the example combine them, and the event processor
-- drives the webhook receiver. Those of kit-api and kit-pay keep their state in Redis, so that
-- the processes of an application share it; so do the uploads and the caption jobs of kit-media
-- and the cache, the counter and the concurrency limiter of kit-data. The other classes of
-- kit-data keep theirs in memory.
--
-- Which file models which part:
-- - Exceptions.antt: kit-core/kit_core/exceptions.py and kit-data/kit_data/exceptions.py,
--   `Result`, and `Method`, a function from a state to a `Result` and the next state: what a
--   method has written when it raises stays written.
-- - Redis/: the Redis server, which is a parameter of the components. Redis/Persistent.antt,
--   Redis/Expiring.antt and Redis/Sorted.antt have the commands with their documented behaviour
--   as laws, without and with times to live, and on sorted sets; Redis/Queues.antt and
--   Redis/Logs.antt those on lists, for the events and the charges. Redis/Client.antt is the part
--   of kit-core/kit_core/redis_client.py that kit-media uses, over GET, SET, SETEX and DEL.
--   Redis/Memory.antt has dictionaries that meet the laws, on which the examples run.
-- - CircuitBreaker.antt: kit-api/kit_api/circuit_breaker.py. `state`, `record_success`,
--   `record_failure`, `allow_request` and `reset` are the methods of their names, command by
--   command; CircuitBreaker/Circuit.antt is the circuit that the docstring describes, which
--   CircuitBreaker/Refinement.antt relates to the four Redis keys; CircuitBreaker/Wrapper.antt is
--   the wrapper of the decorator.
-- - RetryEngine.antt: `execute` and `_compute_delay` of kit-api/kit_api/retry_engine.py.
-- - BatchLoader.antt: kit-data/kit_data/batch_loader.py, every method under its name.
-- - Pagination.antt: kit-data/kit_data/pagination.py, every method under its name.
-- - ReplicaRouter.antt: kit-data/kit_data/replica_router.py, every method under its name.
-- - PlanState.antt: kit-pay/kit_pay/plan_state.py, every method under its name;
--   PlanState/Machine.antt has the state machine as a relation.
-- - Grace.antt: kit-pay/kit_pay/grace_handler.py, every method under its name, over the Redis
--   that holds the plan states as well.
-- - Idempotency.antt: kit-api/kit_api/idempotency.py, every method under its name; `wrapper` is
--   the wrapper of the decorator `idempotent`, whose function may change Redis while it runs.
-- - Cache.antt: kit-data/kit_data/cache.py, every method under its name (`delete_all` for
--   `delete`); Cache/Flight.antt is about the call that takes the lock, Cache/Waiting.antt about
--   one that waits.
-- - Concurrency.antt: kit-data/kit_data/concurrency.py, every method under its name.
-- - Counter.antt: kit-data/kit_data/counter.py, every method under its name.
-- - RateLimiter.antt: kit-api/kit_api/rate_limiter.py, every method under its name; `script` is
--   the Lua script, RateLimiter/Window.antt is about the sliding window.
-- - WebhookReceiver.antt: kit-pay/kit_pay/webhook_receiver.py, every method under its name.
-- - EventProcessor.antt: kit-pay/kit_pay/event_processor.py, every method under its name, over a
--   receiver that is a parameter; EventProcessor/Rounds.antt is about one round of a batch,
--   EventProcessor/Accounting.antt and EventProcessor/Trace.antt about the events as a whole.
-- - BudgetEnforcer.antt: kit-pay/kit_pay/budget_enforcer.py, every method under its name.
-- - ChunkedUploader.antt: kit-media/kit_media/chunked_upload.py, every method under its name,
--   over Redis/Client.antt, which is kit-core/kit_core/redis_client.py as far as it is used here.
-- - CaptionJob.antt: kit-media/kit_media/caption_job.py, every method under its name.
-- - CdnRouter.antt: kit-media/kit_media/cdn_router.py, every method but `close` under its name.
-- - MediaProcessor.antt: kit-media/kit_media/processor.py, without `get_dimensions`.
-- - Middleware.antt: kit-api/kit_api/middleware/django.py and fastapi.py. `handle` is `__call__`
--   and `dispatch`, which go through the same steps; `django_call` and `fastapi_dispatch` are its
--   two instances, by how a body is read.
-- - KitTask.antt: the wrapper of `kit_task` of kit-api/kit_api/adapters/celery_adapter.py.
-- - IdempotencyKeys.antt: kit-pay/kit_pay/idempotency_key.py, every method under its name.
-- - ExampleApp/: of example-app/main.py, the rate limiter of the application (SimpleLimiter.antt)
--   and the endpoints for the limiter, the circuit and the retries (Limits.antt), for orders
--   (Orders.antt), for media (Media.antt), and for webhooks, subscriptions and budgets
--   (Payments.antt, where `charge_customer` is `record_charge`).
-- - Prelude/: integers, lists, dictionaries and texts over the native numbers.
--
-- Conventions. Times are whole microseconds (rates of a random draw are millionths, and an amount
-- of money is a whole number of its smallest unit), so the arithmetic on floats of the source is
-- exact here. Each call of a clock and each random draw is an argument, and the theorems hold for
-- all of them unless they say otherwise. A callable of the application is a method on a state of
-- its own. A JSON document is kept as the record that `json.dumps` is given, of values that JSON
-- gives back as they were. A counter of Redis is a 64-bit integer: kit-data's counter has its
-- bounds, and the counts of a circuit breaker are taken to stay within them. A Redis command is
-- one step, and a method runs without another client between its commands, unless its theorem
-- says otherwise. The client of Redis is a synchronous one, except in kit-media, where other
-- tasks may run while an adapter is awaited.
--
-- Fuel: `ReplicaRouter.run` takes one round more than there are replicas, since every round tries
-- another one; `Pagination.iter_pages` takes its number of pages from the caller, and one more
-- than there are rows is enough; the wait of `Cache.get_or_set` takes 20 rounds for each second
-- of `lock_ttl`, for the sleep of 0.05 seconds, and one more; `retry_failed` takes one round more
-- than there are failed records, and `process_batch` one for each event that it may take. The
-- loops of `RetryEngine` and `BatchLoader` are structural.
--
-- Not modelled: the asynchronous `execute_async`, whose body is that of `execute`; the decorators
-- beyond their wrappers; the cost tracker and the endpoints of the example for costs;
-- `get_dimensions` of the media processor; the adapters to Stripe, Paddle, S3, R2 and GCS and the
-- presigned URLs, which forward to other libraries; the construction of connections and of
-- middlewares from settings; logging and configuration.
pub mod Prelude
pub mod Exceptions
pub mod Redis
pub mod CircuitBreaker
pub mod RetryEngine
pub mod BatchLoader
pub mod Pagination
pub mod ReplicaRouter
pub mod PlanState
pub mod Grace
pub mod Idempotency
pub mod Cache
pub mod Concurrency
pub mod Counter
pub mod RateLimiter
pub mod ExampleApp
pub mod WebhookReceiver
pub mod EventProcessor
pub mod BudgetEnforcer
pub mod ChunkedUploader
pub mod Middleware
pub mod KitTask
pub mod IdempotencyKeys
pub mod CaptionJob
pub mod CdnRouter
pub mod MediaProcessor
