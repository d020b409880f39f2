-- ===== src/Lib.antt =====
-- Verification of the VNG Cloud load balancer controller.
--
-- The controller turns a LoadBalancerConfig into load balancers, listeners, pools, policies and tags
-- of the cloud. Several resources, and several clusters, may share one load balancer, and what they
-- share is told apart by records: the status of a resource says what it created and what it found,
-- and tags on the load balancer say which clusters use it and which one created it. The development
-- models the decisions of internal/usecase/lbc_uc that keep the sharers apart, and what the
-- reconciler does with an error.
--
--   Base         Texts as lists of bytes, Go's maps as association lists (Base.Maps), `==` as an
--                instance, the laws of strings.Split and strings.Join (Base.Parts) and of
--                slices.Sort (Base.Sorting).
--   Api          The resource: Api.Spec and Api.Status are the types of
--                api/v1alpha1/loadbalancerconfig_types.go, Api.Equality its Equal methods and the
--                comparisons of lists in internal/usecase/lbc_uc/status.go.
--   Cloud        The entities of the SDK, a library of others, as far as they are read.
--   Domain       The constants of internal/domain/domain.go.
--   Tags         internal/usecase/lbc_uc/deploy_tag.go: buildTag, tagsToMap, joinTagValue,
--                removeTagValue, isValidVksId. Tags.Merge and Tags.Values are about these; Tags.Wanted is
--                what deployTags wants and what deleteRedundantTagsFrom of delete_tag.go leaves,
--                Tags.Wanted.Sharing is about the deploy, Tags.Wanted.Leaving about the teardown.
--                Tags.Ensure is ensureTags over the tag cache of
--                internal/repository/vngcloud_repo/vngcloud_tags.go, for a closure with a memo.
--   Ownership    createdByThisCluster, loadBalancerIsOurs, looksLastOutOf and
--                loadBalancerHasOtherLBC of internal/usecase/lbc_uc (deploy_tag.go, status.go,
--                delete_lb.go, delete_tag.go), and which load balancer a resource references.
--   Program      Programs over the calls of internal/repository/contracts.go: a call, its reply, and
--                what follows. Program.Calls has one program for each call, Program.Only the calls
--                that a program can make, Program.Histories what a program does by what it has seen;
--                Program.Tags is ensureTags of deploy_tag.go over a closure that makes calls.
--   Patches      What internal/usecase/lbc_uc/status.go, and syncLBCStatusFromLoadBalancer of
--                deploy_lb.go, make of a fresh status; Status has the programs that send it.
--   Teardown     canDeleteWholeLoadBalancer and isLoadBalancerEmpty of
--                internal/usecase/lbc_uc/delete_lb.go, over the lists of the cloud, and as programs in
--                Teardown.Whole. Teardown.Policies, Pools and Listeners are the cleanups of
--                delete_policy.go, delete_pool.go and delete_listener.go, which Teardown.Busy
--                (retry_not_ready.go) and Failures serve; Teardown.Certs is
--                deleteRedundantCerts of deploy_cert.go; Teardown.Release is delete_tag.go, and
--                Teardown.Delete composes them: delete and deleteLoadBalancer of delete_lb.go,
--                teardownRetiringLoadBalancer of deploy_lb.go. Teardown.Scope and
--                Teardown.Delete.Grounds say what they may write, and when.
--   Deploy       Deploy.LoadBalancer: deployLoadBalancer, its parts and its requests, of deploy_lb.go,
--                with the request for a listener of deploy_listener.go. Deploy.Pools: deployPools,
--                deployPool and the requests of deploy_pool.go. Deploy.Policies: deployPolicies, the
--                requests and deployReorderPolicies of deploy_policy.go.
--   Members      mergePoolMembers and comparePoolMembers of deploy_pool.go, canDeleteWholePool of
--                delete_pool.go, in internal/usecase/lbc_uc.
--   Acl          internal/usecase/lbc_uc/listener_acl.go: the values of a listener's access lists
--                and their comparison (Acl.Values), the planner planListenerAcl (Acl.Plan).
--   Validate     internal/usecase/lbc_uc/validate.go: the check of a resource alone
--                (Validate.Self), the checks of protocols and default pools across resources
--                (Validate.Declared, Validate.Sharing), and the check of access lists with the
--                peers and warnings that it records (Validate.Access).
--   Errs         pkg/errs, and error.go, ratelimit.go and warning.go of internal/domain: errors by
--                kind, errors.As on their chains, HandleReconcileError, the waits.
--   Retry        internal/usecase/lbc_uc/retry_not_ready.go.
--
-- How the parts meet: validation runs before a deploy and leaves the peers that the planner of
-- access lists consults; the deploy writes the tags that ownership reads later; the teardown asks
-- ownership whether the load balancer may go, and otherwise takes only this cluster off its tags.
-- A function of the source is a function here with the same words in its name. Code that changes a
-- task (t.aclPeers, t.warnings) passes the changed fields on; a result with an error is a pair or
-- an option. A message is a value that keeps what the message names.
--
-- Abstractions: a port, a weight or another number that the cloud bounds is a natural number; a
-- duration is the 64 bits of an int64. EqualFold, TrimSpace and ToLower are those of ASCII. Go's
-- order of iterating a map is the order in which keys were added; where a map is only looked up it
-- plays no part. Package net (the record Net), strconv, net/http, time and rand (the record Parsers
-- and function arguments) are parameters. The loop of the retry runs on the number of attempts that
-- are left, which is the source's own bound of three. Logs are left out.
--
-- Calls of the SDK and of Kubernetes are parameters: in the decisions a list of the cloud is a
-- function that may fail, read at one moment, and a write changes a world that is left open; a program
-- takes any reply to any of its calls, so that its theorems hold whatever others do in between. A
-- patch of the status gives the fresh status that it ran on. The retry in a program runs on the
-- attempts that are left after the first, two, as the source makes three.
--
-- Not modelled: the rest of internal/repository; the deploy of listeners and
-- certificates, and with it the order of the calls in a deploy as a whole; the use cases that build a
-- resource from a Service or an Ingress; global load balancers; security groups; controllers, metrics,
-- flags and start up.
pub mod Base
pub mod Api
pub mod Domain
mod Samples
pub mod Tags
pub mod Ownership
pub mod Members
pub mod Cloud
pub mod Acl
pub mod Validate
pub mod Errs
pub mod Retry
pub mod Teardown
pub mod Program
pub mod Status
pub mod Patches
pub mod Deploy
