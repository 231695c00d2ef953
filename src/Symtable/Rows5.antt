-- ===== src/Symtable/Rows5.antt =====
-- src/symtable.rs: the rows of lines 587 to 729.
use docsis_config_generator.Common.{List, [], ◌∷◌}
use docsis_config_generator.Symbol.{Symbol, Enc, Render}
use docsis_config_generator.Symtable.Row.{row}

abbrev pub rows5 : List Symbol
rows5 =
    row 928 "DownstreamBTPIDTranslation" 6 922 Enc.hexstr Render.hexstr 2 2
    ∷ row 929 "UpstreamITPIDTranslation" 7 922 Enc.hexstr Render.hexstr 2 2
    ∷ row 930 "DownstreamITPIDTranslation" 8 922 Enc.hexstr Render.hexstr 2 2
    ∷ row 931 "L2CPProcessing" 15 195 Enc.nothing Render.aggregate 0 0
    ∷ row 932 "L2CPTunnelMode" 1 931 Enc.uchar Render.uchar 0 1
    ∷ row 933 "L2CPDMACAddress" 2 931 Enc.ether Render.ether 0 0
    ∷ row 934 "L2CPOverwrotingDMACAddress" 3 931 Enc.ether Render.ether 0 0
    ∷ row 935 "DACDisableEnableConfiguration" 16 195 Enc.uchar Render.uchar 0 1
    ∷ row 936 "PseudowireClass" 18 195 Enc.hexstr Render.hexstr 0 0
    ∷ row 937 "ServiceDelimiter" 19 195 Enc.nothing Render.aggregate 0 0
    ∷ row 938 "CVIDDelimiter" 1 937 Enc.hexstr Render.hexstr 2 2
    ∷ row 939 "SVIDDelimiter" 2 937 Enc.hexstr Render.hexstr 2 2
    ∷ row 940 "ISIDDelimiter" 3 937 Enc.hexstr Render.hexstr 3 3
    ∷ row 941 "BVIDDelimiter" 4 937 Enc.hexstr Render.hexstr 2 2
    ∷ row 942 "VirtualSwitchInstanceEncoding" 20 195 Enc.nothing Render.aggregate 0 0
    ∷ row 943 "VPLSClass" 1 942 Enc.hexstr Render.hexstr 0 0
    ∷ row 944 "ETreeRole" 2 942 Enc.uchar Render.uchar 0 1
    ∷ row 945 "ETreeRootVID" 3 942 Enc.hexstr Render.hexstr 2 2
    ∷ row 946 "ETreeLeafVID" 4 942 Enc.hexstr Render.hexstr 2 2
    ∷ row 947 "BGPAttribute" 21 195 Enc.nothing Render.aggregate 0 0
    ∷ row 948 "BGPVPNID" 1 947 Enc.uint Render.uint 0 0
    ∷ row 949 "RouteDistinguisher" 2 947 Enc.hexstr Render.hexstr 8 8
    ∷ row 950 "RouteTargetImport" 3 947 Enc.hexstr Render.hexstr 0 0
    ∷ row 951 "RouteTargetExport" 4 947 Enc.hexstr Render.hexstr 0 0
    ∷ row 952 "CEIDVEID" 5 947 Enc.ushort Render.ushort 0 0
    ∷ row 953 "PseudowireSignaling" 23 195 Enc.uchar Render.uchar 0 2
    ∷ row 954 "SOAMSubtype" 24 195 Enc.nothing Render.aggregate 0 0
    ∷ row 955 "MEPConfiguration" 1 954 Enc.nothing Render.aggregate 0 0
    ∷ row 956 "MDLevel" 1 955 Enc.uchar Render.uchar 0 7
    ∷ row 957 "MDName" 2 955 Enc.string Render.string 2 16
    ∷ row 958 "MAName" 3 955 Enc.string Render.string 2 28
    ∷ row 959 "MEPID" 4 955 Enc.ushort Render.ushort 1 8191
    ∷ row 960 "RemoteMEPConfiguration" 2 954 Enc.nothing Render.aggregate 0 0
    ∷ row 961 "RemoteMDLevel" 1 960 Enc.uchar Render.uchar 0 7
    ∷ row 962 "RemoteMDName" 2 960 Enc.string Render.string 2 16
    ∷ row 963 "RemoteMAName" 3 960 Enc.string Render.string 2 28
    ∷ row 964 "RemoteMEPID" 4 960 Enc.ushort Render.ushort 1 8191
    ∷ row 965 "FaultManagementConfiguration" 3 954 Enc.nothing Render.aggregate 0 0
    ∷ row 966 "ContinuityCheckMessages" 1 965 Enc.uchar Render.uchar 0 2
    ∷ row 967 "LoopbackFunction" 2 965 Enc.uchar Render.uchar 0 1
    ∷ row 968 "LinktraceFunction" 3 965 Enc.uchar Render.uchar 0 1
    ∷ row 969 "PerformanceManagementConfiguration" 4 954 Enc.nothing Render.aggregate 0 0
    ∷ row 970 "FrameDelayMeasurement" 1 969 Enc.nothing Render.aggregate 0 0
    ∷ row 971 "FrameDelayMeasurementEnable" 1 970 Enc.uchar Render.uchar 0 1
    ∷ row 972 "FrameDelayMeasurementOneWayTwoWay" 2 970 Enc.uchar Render.uchar 0 1
    ∷ row 973 "FrameDelayMeasurementTransmissionPeriodicity" 3 970 Enc.ushort Render.ushort 0 0
    ∷ row 974 "FrameLossMeasurement" 2 969 Enc.nothing Render.aggregate 0 0
    ∷ row 975 "FrameLossMeasurementEnable" 1 974 Enc.uchar Render.uchar 0 1
    ∷ row 976 "FrameLossMeasurementTransmissionPeriodicity" 2 974 Enc.uchar Render.uchar 0 0
    ∷ row 2030 "VPNSGAttribute" 22 195 Enc.string Render.string 1 16
    ∷ row 2031 "L2VPNNetworkTimingProfileReference" 25 195 Enc.ushort Render.ushort 0 65535
    ∷ row 977 "L2VPNDSID" 26 195 Enc.uint24 Render.uint24 1 1048575
    ∷ row 2032 "L2VPNMultipointForwardingMode" 27 195 Enc.uchar Render.uchar 0 1
    ∷ row 978 "VendorSpecificL2VPNSubtype" 43 195 Enc.nothing Render.aggregate 0 0
    ∷ row 979 "VendorIdentifier" 8 978 Enc.hexstr Render.hexstr 3 3
    ∷ row 980 "ExtendedCMTSMICConfigurationSetting" 6 205 Enc.nothing Render.aggregate 0 0
    ∷ row 981 "ExtendedCMTSMICHMACtype" 1 980 Enc.uchar Render.uchar 0 0
    ∷ row 982 "ExtendedCMTSMICBitmap" 2 980 Enc.hexstr Render.hexstr 0 0
    ∷ row 983 "ExplicitExtendedCMTSMICDigest" 3 980 Enc.hexstr Render.hexstr 0 0
    ∷ row 984 "SAVAuthorizationEncoding" 7 205 Enc.nothing Render.aggregate 0 0
    ∷ row 985 "SAVGroupName" 1 984 Enc.string Render.string 1 15
    ∷ row 986 "SAVStaticPrefixRule" 2 984 Enc.nothing Render.aggregate 0 0
    ∷ row 987 "SAVStaticPrefixAddress" 1 986 Enc.ip_ip6 Render.ip_ip6 0 0
    ∷ row 988 "SAVStaticPrefixLength" 2 986 Enc.uchar Render.uchar 0 0
    ∷ row 989 "VendorIdentifier" 8 205 Enc.hexstr Render.hexstr 3 3
    ∷ row 990 "CMAttributeMasks" 9 205 Enc.nothing Render.aggregate 0 0
    ∷ row 991 "CMDownstreamRequiredAttributeMask" 1 990 Enc.hexstr Render.hexstr 4 4
    ∷ row 992 "CMDownstreamForbiddenAttributeMask" 2 990 Enc.hexstr Render.hexstr 4 4
    ∷ row 993 "CMUpstreamRequiredAttributeMask" 3 990 Enc.hexstr Render.hexstr 4 4
    ∷ row 994 "CMUpstreamForbiddenAttributeMask" 4 990 Enc.hexstr Render.hexstr 4 4
    ∷ row 995 "IPMulticastJoinAuthorization" 10 205 Enc.nothing Render.aggregate 0 0
    ∷ row 996 "IPMulticastProfileName" 1 995 Enc.string Render.string 1 15
    ∷ row 997 "IPMulticastJoinAuthStaticSessionRule" 2 995 Enc.nothing Render.aggregate 0 0
    ∷ row 1429 "MulticastRulePriority" 1 997 Enc.uchar Render.uchar 0 255
    ∷ row 1430 "AuthorizationAction" 2 997 Enc.uchar Render.uchar 0 1
    ∷ row 1000 "SourcePrefixAddress" 3 997 Enc.ip_ip6 Render.ip_ip6 0 0
    ∷ row 1001 "SourcePrefixLength" 4 997 Enc.uchar Render.uchar 0 128
    ∷ row 1002 "GroupPrefixAddress" 5 997 Enc.ip_ip6 Render.ip_ip6 0 0
    ∷ row 1003 "GroupPrefixLength" 6 997 Enc.uchar Render.uchar 0 128
    ∷ row 1004 "MaximumMulticastSessions" 3 995 Enc.ushort Render.ushort 0 0
    ∷ row 1005 "ServiceTypeIdentifier" 11 205 Enc.string Render.string 1 16
    ∷ row 1006 "DEMARCAutoConfiguration" 12 205 Enc.nothing Render.aggregate 0 0
    ∷ row 1007 "DACDisableEnableConfig" 1 1006 Enc.uchar Render.uchar 0 1
    ∷ row 1008 "CMIMEncoding" 2 1006 Enc.hexstr Render.hexstr 0 0
    ∷ row 1009 "UpstreamServiceClassName" 3 1006 Enc.strzero Render.strzero 2 16
    ∷ row 1010 "DownstreamServiceClassName" 4 1006 Enc.strzero Render.strzero 2 16
    ∷ row 1435 "GuaranteedGrantInterval" 44 80 Enc.ushort Render.ushort 0 0
    ∷ row 1436 "GuaranteedGrantRate" 45 80 Enc.uint Render.uint 0 0
    ∷ row 1437 "GuaranteedRequestInterval" 46 80 Enc.ushort Render.ushort 0 0
    ∷ row 1438 "AbsoluteQueueDepthRequestEnable" 48 80 Enc.uchar Render.uchar 0 1
    ∷ row 1439 "PGSActivityDetectionDisable" 49 80 Enc.uchar Render.uchar 0 1
    ∷ row 102 "DsServiceFlow" 25 0 Enc.nothing Render.aggregate 0 0
    ∷ row 103 "DsServiceFlowRef" 1 102 Enc.ushort Render.ushort 1 65535
    ∷ row 104 "DsServiceFlowId" 2 102 Enc.uint Render.uint 1 4294967295
    ∷ row 105 "ServiceClassName" 4 102 Enc.strzero Render.strzero 2 16
    ∷ row 106 "QosParamSetType" 6 102 Enc.uchar Render.uchar 0 255
    ∷ row 107 "TrafficPriority" 7 102 Enc.uchar Render.uchar 0 7
    ∷ row 108 "MaxRateSustained" 8 102 Enc.uint Render.uint 0 4294967295
    ∷ row 109 "MaxTrafficBurst" 9 102 Enc.uint Render.uint 0 4294967295
    ∷ row 110 "MinReservedRate" 10 102 Enc.uint Render.uint 0 4294967295
    ∷ row 111 "MinResPacketSize" 11 102 Enc.ushort Render.ushort 0 65535
    ∷ row 112 "ActQosParamsTimeout" 12 102 Enc.ushort Render.ushort 0 65535
    ∷ row 113 "AdmQosParamsTimeout" 13 102 Enc.ushort Render.ushort 0 65535
    ∷ row 114 "MaxDsLatency" 14 102 Enc.uint Render.uint 0 0
    ∷ row 1269 "DsResequencing" 17 102 Enc.uchar Render.uchar 0 1
    ∷ row 1270 "IpTosOverwrite" 23 102 Enc.hexstr Render.hexstr 2 2
    ∷ row 1271 "DownstreamPeakTrafficRate" 27 102 Enc.uint Render.uint 0 0
    ∷ row 1272 "ServiceFlowRequiredAttributeMask" 31 102 Enc.hexstr Render.hexstr 4 4
    ∷ row 1273 "ServiceFlowForbiddenAttributeMask" 32 102 Enc.hexstr Render.hexstr 4 4
    ∷ row 1274 "ServiceFlowAttributeAggregationRuleMask" 33 102 Enc.hexstr Render.hexstr 4 4
    ∷ row 1275 "ApplicationIdentifier" 34 102 Enc.uint Render.uint 0 0
    ∷ row 1276 "BufferControl" 35 102 Enc.nothing Render.aggregate 0 0
    ∷ row 1277 "MinimumBuffer" 1 1276 Enc.uint Render.uint 0 4294967295
    ∷ row 1278 "TargetBuffer" 2 1276 Enc.uint Render.uint 0 4294967295
    ∷ row 1279 "MaximumBuffer" 3 1276 Enc.uint Render.uint 0 4294967295
    ∷ row 1280 "DownstreamAggregateServiceFlowReference" 36 102 Enc.ushort Render.ushort 1 65535
    ∷ row 1281 "DownstreamMESPReference" 37 102 Enc.ushort Render.ushort 1 65535
    ∷ row 1441 "SFtoIATCProfileNameReference" 39 102 Enc.strzero Render.strzero 2 16
    ∷ row 1282 "AQMEncodings" 40 102 Enc.nothing Render.aggregate 0 0
    ∷ row 1283 "SFAQMDisable" 1 1282 Enc.uchar Render.uchar 0 1
    ∷ row 1284 "SFAQMLatencyTarget" 2 1282 Enc.uchar Render.uchar 0 255
    ∷ row 1442 "AQMAlgorithm" 3 1282 Enc.uchar Render.uchar 0 2
    ∷ row 1443 "ImmediateAQMMaxThreshold" 4 1282 Enc.ushort Render.ushort 0 0
    ∷ row 1444 "ImmediateAQMRangeExponent" 5 1282 Enc.uchar Render.uchar 0 25
    ∷ row 1445 "LatencyHistogramEncodings" 6 1282 Enc.ushort_list Render.ushort_list 1 15
    ∷ row 1285 "DataRateUnitSetting" 41 102 Enc.uchar Render.uchar 0 3
    ∷ row 199 "VendorSpecific" 43 102 Enc.nothing Render.aggregate 0 0
    ∷ row 196 "CMLoadBalancingPolicyID" 1 199 Enc.uint Render.uint 0 0
    ∷ row 197 "CMLoadBalancingPriority" 2 199 Enc.uint Render.uint 0 0
    ∷ row 198 "CMLoadBalancingGroupID" 3 199 Enc.uint Render.uint 0 0
    ∷ row 1011 "CMRangingClassIDExtension" 4 199 Enc.ushort Render.ushort 0 0
    ∷ row 1012 "L2VPNEncoding" 5 199 Enc.nothing Render.aggregate 0 0
    ∷ row 1013 "VPNIdentifier" 1 1012 Enc.hexstr Render.hexstr 4 255
    ∷ row 1014 "NSIEncapsulation" 2 1012 Enc.nothing Render.aggregate 0 0
    ∷ row 1015 "ServiceMultiplexingValueOther" 1 1014 Enc.lenzero Render.lenzero 0 0
    ∷ row 1016 "NSIEncapsulationSingleQTag" 2 1014 Enc.ushort Render.ushort 0 4096
    ∷ row 1017 "NSIEncapsulationDualQTag" 3 1014 Enc.dual_qtag Render.dual_qtag 0 0
    ∷ row 1018 "ServiceMultiplexingValueMPLSPW" 4 1014 Enc.nothing Render.aggregate 0 0
    ∷ row 1019 "MPLSPseudowireID" 1 1018 Enc.uint Render.uint 0 0
    ∷ row 1020 "MPLSPeerIpAddress" 2 1018 Enc.char_ip_ip6 Render.char_ip_ip6 0 0
    ∷ row 1021 "MPLSPseudowireType" 3 1018 Enc.uchar Render.uchar 0 0
    ∷ row 1022 "MPLSBackupPseudowireID" 4 1018 Enc.uint Render.uint 0 0
    ∷ row 1023 "MPLSBackupPeerIpAddress" 5 1018 Enc.char_ip_ip6 Render.char_ip_ip6 0 0
    ∷ []
