-- ===== src/Provisioning/Queues.antt =====
-- The NATS and Redis servers of a stack: `createNATSResources` and `createRedisResources` of
-- controllers/provisioning.go.
use pishop_operator.Base.{String, ◌∷◌, [], Option, none, some}
use pishop_operator.Kube.{Entries, Object, VolumeSource}
use pishop_operator.Client.{Error, Go, ◌>>=◌, pure, attempt, get_object, errorf}
use pishop_operator.Reconciler.{Reconciler, must_parse}
use pishop_operator.Cluster.{create_or_update}

-- The labels of both servers' objects.
abbrev server_labels : String → String → Entries
server_labels app pr_number = ("app", app) ∷ ("pr", pr_number) ∷ []

module _ (r : Reconciler) where
  unfoldable pub create_nats_resources : String → Go (Option Error)
  create_nats_resources namespace = do
    x ← get_object
    let labels = server_labels "nats" x.spec.pr_number
    request_cpu ← must_parse r "0m"
    request_memory ← must_parse r "0Mi"
    limit_cpu ← must_parse r "500m"
    limit_memory ← must_parse r "512Mi"
    attempt
        (create_or_update r (
          Object.deployment (record {
            meta = record {
              name = "nats";
              namespace = namespace;
              labels = labels;
              annotations = [];
            };
            replicas = some 1;
            selector = labels;
            template = record {
              labels = labels;
              annotations = [];
              restart_policy = "";
              image_pull_secrets = [];
              containers =
                  record {
                    name = "nats";
                    image = "nats:2.10-alpine";
                    command = [];
                    args = "--jetstream" ∷ "--store_dir=/data" ∷ [];
                    ports =
                        record { container_port = 4222; name = "client" }
                        ∷ record { container_port = 8222; name = "monitor" }
                        ∷ [];
                    env = [];
                    volume_mounts = record { name = "data"; mount_path = "/data" } ∷ [];
                    resources = record {
                      requests = ("cpu", request_cpu) ∷ ("memory", request_memory) ∷ [];
                      limits = ("cpu", limit_cpu) ∷ ("memory", limit_memory) ∷ [];
                    };
                    liveness_probe = none;
                    readiness_probe = none;
                  }
                  ∷ [];
              volumes = record { name = "data"; source = VolumeSource.empty_dir } ∷ [];
            };
          })))
        (λ e. pure (some (errorf "failed to create NATS deployment: " e)))
        (attempt
          (create_or_update r (
            Object.service (record {
              meta = record {
                name = "nats";
                namespace = namespace;
                labels = labels;
                annotations = [];
              };
              selector = labels;
              ports =
                  record { name = "client"; port = 4222; target_port = 4222; protocol = "TCP" }
                  ∷ record { name = "monitor"; port = 8222; target_port = 8222; protocol = "TCP" }
                  ∷ [];
            })))
          (λ e. pure (some (errorf "failed to create NATS service: " e))) (pure none))

  unfoldable pub create_redis_resources : String → Go (Option Error)
  create_redis_resources namespace = do
    x ← get_object
    let labels = server_labels "redis" x.spec.pr_number
    request_cpu ← must_parse r "0m"
    request_memory ← must_parse r "0Mi"
    limit_cpu ← must_parse r "500m"
    limit_memory ← must_parse r "512Mi"
    attempt
        (create_or_update r (
          Object.deployment (record {
            meta = record {
              name = "redis";
              namespace = namespace;
              labels = labels;
              annotations = [];
            };
            replicas = some 1;
            selector = labels;
            template = record {
              labels = labels;
              annotations = [];
              restart_policy = "";
              image_pull_secrets = [];
              containers =
                  record {
                    name = "redis";
                    image = "redis:7-alpine";
                    command = [];
                    args =
                        "redis-server" ∷ "--appendonly" ∷ "yes" ∷ "--maxmemory" ∷ "256mb"
                        ∷ "--maxmemory-policy" ∷ "allkeys-lru" ∷ [];
                    ports = record { container_port = 6379; name = "redis" } ∷ [];
                    env = [];
                    volume_mounts = record { name = "data"; mount_path = "/data" } ∷ [];
                    resources = record {
                      requests = ("cpu", request_cpu) ∷ ("memory", request_memory) ∷ [];
                      limits = ("cpu", limit_cpu) ∷ ("memory", limit_memory) ∷ [];
                    };
                    liveness_probe = none;
                    readiness_probe = none;
                  }
                  ∷ [];
              volumes = record { name = "data"; source = VolumeSource.empty_dir } ∷ [];
            };
          })))
        (λ e. pure (some (errorf "failed to create Redis deployment: " e)))
        (attempt
          (create_or_update r (
            Object.service (record {
              meta = record {
                name = "redis";
                namespace = namespace;
                labels = labels;
                annotations = [];
              };
              selector = labels;
              ports =
                  record { name = "redis"; port = 6379; target_port = 6379; protocol = "TCP" } ∷ [];
            })))
          (λ e. pure (some (errorf "failed to create Redis service: " e))) (pure none))
